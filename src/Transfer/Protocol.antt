-- ===== src/Transfer/Protocol.antt =====
-- What a client gets for its requests.
use dipp.Base.{
  ℕ, ◌%◌, ◌/◌, ◌^◌, ◌≡◌, ◌<◌, refl, ap, ◌∙◌, List, [], ◌∷◌, some, Bool, true, false, arith, length,
  take, drop,
}
use dipp.Base.Int.{to_u32, to_u32-lt}
use dipp.Base.Word.{le_bytes, le_value, le_value-le_bytes}
use dipp.Types.{Metadata}
use dipp.Upload.Blocks.{Shot, block}
use dipp.Transfer.Defs.{
  RingLib, ObservationMeta, Packet, Connection, no_connection, request, sent,
  observation_meta_bytes, requested_index, answer_meta, answer, dtp_indeces_server, then_serve,
  no_request,
}
use dipp.Transfer.Observation.{Holds, observation_get_dtp_meta-block}

-- What a client can ask for: the number of observations, or the metadata at an index.
pub data Question : Type 0 where
  amount : Question
  metadata_of : ℕ → Question

-- A packet asks a question: the kind, and the two bytes of the index.
abbrev pub Asks : Packet → Question → Type 0
Asks p amount = p.byte_at 0 ≡ 0
Asks p (metadata_of index) =
    (p.byte_at 0 ≡ 1) × (p.byte_at 1 ≡ index % 256) × (p.byte_at 2 ≡ index / 256) × (index < 2 ^ 16)

-- The struct as a client reads it from the bytes behind the first.
abbrev pub meta_of_bytes : List ℕ → ObservationMeta
meta_of_bytes bytes = record {
  index = le_value (take 2 bytes);
  size = le_value (take 4 (drop 4 bytes));
  obid = le_value (take 4 (drop 8 bytes));
}

-- What a ring buffer of observations holds at an index.
pub record Observation (lib : RingLib) (index : ℕ) : Type 0 where
  pub shot : Shot
  pub meta : Metadata
  pub holds : Holds lib index (block shot)
  pub fits : length shot.meta < 2 ^ 32
  pub unpacks : lib.unpack_metadata shot.meta ≡ some meta

abbrev pub AllObservations : RingLib → Type 0
AllObservations lib = (index : ℕ) → lib.is_valid_index index ≡ true → Observation lib index

-- The answer is the right one: a word with the number of observations; 0 for an index that is not
-- valid; 1 and the index, the size and the obid of the observation.
abbrev pub AnswersMeta :
    (lib : RingLib)
    → AllObservations lib
    → (index : ℕ) → (valid : Bool) → lib.is_valid_index index ≡ valid
    → List ℕ
    → Type 0
AnswersMeta lib all index false e packet = packet ≡ 0 ∷ []
AnswersMeta lib all index true e packet =
    (bytes : List ℕ) × (packet ≡ 1 ∷ bytes)
    × (meta_of_bytes bytes ≡ record {
      index = index;
      size = to_u32 (all index e).meta.size;
      obid = to_u32 (all index e).meta.obid;
    })

abbrev pub Answers : (lib : RingLib) → AllObservations lib → Question → List ℕ → Type 0
Answers lib all amount packet = le_value packet ≡ lib.amount_of_elements
Answers lib all (metadata_of index) packet =
    AnswersMeta lib all index (lib.is_valid_index index) refl packet

-- A client reads what the server has written.
meta_of_bytes-observation_meta_bytes :
    (a b : ℕ) (m : ObservationMeta)
    → m.index < 2 ^ 16
    → m.size < 2 ^ 32
    → m.obid < 2 ^ 32
    → meta_of_bytes (observation_meta_bytes (a ∷ b ∷ []) m) ≡ m
unfolding observation_meta_bytes
meta_of_bytes-observation_meta_bytes a b m i s o = λ k. record {
  index = le_value-le_bytes 2 m.index (omega arith) k;
  size = le_value-le_bytes 4 m.size (omega arith) k;
  obid = le_value-le_bytes 4 m.obid (omega arith) k;
}

requested_index-Asks :
    (p : Packet) (index : ℕ)
    → p.byte_at 1 ≡ index % 256
    → p.byte_at 2 ≡ index / 256
    → index < 2 ^ 16
    → requested_index p ≡ index
unfolding requested_index
requested_index-Asks p index low high lt = omega arith

-- Each connection brings a request for the next question, or none.
abbrev pub AskAll : List Connection → List Question → Type 0
AskAll [] [] = Unit
AskAll (no_connection ∷ cs) qs = AskAll cs qs
AskAll (request p ∷ cs) (q ∷ qs) = Asks p q × AskAll cs qs
AskAll _ _ = ⊥

module _ (lib : RingLib) (all : AllObservations lib) (a b : ℕ) where
  answer_meta-Answers :
      (index : ℕ)
      → index < 2 ^ 16
      → (valid : Bool) (e : lib.is_valid_index index ≡ valid)
      → (packet : List ℕ) × (answer_meta lib (a ∷ b ∷ []) index ≡ sent (packet ∷ []))
        × AnswersMeta lib all index valid e packet
  unfolding answer_meta
  answer_meta-Answers index lt false e = (0 ∷ [], rw e refl, refl)
  answer_meta-Answers index lt true e = (
    1 ∷ observation_meta_bytes (a ∷ b ∷ []) found,
    rw (e, observation_get_dtp_meta-block lib index o.shot o.holds o.fits o.meta o.unpacks) refl,
    (
      observation_meta_bytes (a ∷ b ∷ []) found,
      refl,
      meta_of_bytes-observation_meta_bytes a b found lt (to_u32-lt o.meta.size)
          (to_u32-lt o.meta.obid),
    ),
  )
    where
      o : Observation lib index
      o = all index e

      found : ObservationMeta
      found = record { index = index; size = to_u32 o.meta.size; obid = to_u32 o.meta.obid }

  meta_request :
      (p : Packet)
      → p.byte_at 0 ≡ 1
      → answer lib (a ∷ b ∷ []) p ≡ answer_meta lib (a ∷ b ∷ []) (requested_index p)
  unfolding answer
  meta_request p e = rw e refl

  answer-Answers :
      (p : Packet) (q : Question)
      → lib.amount_of_elements < 2 ^ 32
      → Asks p q
      → (packet : List ℕ) × (answer lib (a ∷ b ∷ []) p ≡ sent (packet ∷ []))
        × Answers lib all q packet
  unfolding answer
  answer-Answers p amount few asks = (
    le_bytes 4 lib.amount_of_elements,
    rw asks refl,
    le_value-le_bytes 4 lib.amount_of_elements (omega arith),
  )
  answer-Answers p (metadata_of index) few asks =
      let (packet, e, right) = answer_meta-Answers index asks.3 (lib.is_valid_index index) refl in
      (
        packet,
        meta_request p asks.0
            ∙ ap (answer_meta lib (a ∷ b ∷ [])) (requested_index-Asks p index asks.1 asks.2 asks.3)
            ∙ e,
        right,
      )

  -- One packet for each question, in their order, and each the right one.
  abbrev pub AnswersAll : List Question → List (List ℕ) → Type 0
  AnswersAll [] [] = Unit
  AnswersAll (q ∷ qs) (packet ∷ packets) = Answers lib all q packet × AnswersAll qs packets
  AnswersAll _ _ = ⊥

  -- Let every valid index of the ring buffer hold an observation as `upload` writes it, whose
  -- metadata unpacks, and let the connections bring requests for these questions, with rounds
  -- without a connection in between. Then the server sends one packet for each question, in their
  -- order, whatever stands in the padding of its struct: a word that is the number of observations;
  -- for the metadata at an index that is not valid, the byte 0; and at a valid one the byte 1 and a
  -- struct from which a client reads the index, and the size and the obid of that observation.
  pub dtp_indeces_server-AnswersAll :
      (cs : List Connection) (qs : List Question)
      → lib.amount_of_elements < 2 ^ 32
      → AskAll cs qs
      → (packets : List (List ℕ)) × (dtp_indeces_server lib (a ∷ b ∷ []) cs ≡ sent packets)
        × AnswersAll qs packets
  unfolding dtp_indeces_server then_serve
  dtp_indeces_server-AnswersAll [] [] few ask = ([], refl, tt)
  dtp_indeces_server-AnswersAll [] (q ∷ qs) few ask = absurd ask
  dtp_indeces_server-AnswersAll (no_connection ∷ cs) qs few ask =
      dtp_indeces_server-AnswersAll cs qs few ask
  dtp_indeces_server-AnswersAll (no_request ∷ cs) [] few ask = absurd ask
  dtp_indeces_server-AnswersAll (no_request ∷ cs) (q ∷ qs) few ask = absurd ask
  dtp_indeces_server-AnswersAll (request p ∷ cs) [] few ask = absurd ask
  dtp_indeces_server-AnswersAll (request p ∷ cs) (q ∷ qs) few ask =
      let (packet, e, right) = answer-Answers p q few ask.0 in
      let (packets, f, rights) = dtp_indeces_server-AnswersAll cs qs few ask.1 in
      (packet ∷ packets, rw (e, f) refl, (right, rights))
