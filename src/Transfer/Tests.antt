-- ===== src/Transfer/Tests.antt =====
-- The theorems on src/vmem/vmem_dtp_server.c at a ring buffer of one observation.
use dipp.Base.{ℕ, refl, some, List, [], ◌∷◌, arith, take, drop, ◌==◌, ◌≡◌}
use dipp.Upload.Blocks.{Shot, block}
use dipp.Samples.{sample_metadata}
use dipp.Transfer.Defs.{
  RingLib, PayloadMeta, Packet, request, no_connection, sent, get_payload_meta,
  observation_get_dtp_meta, dtp_indeces_server,
}
use dipp.Transfer.Observation.{read_chunks, get_payload_meta-Holds, observation_get_dtp_meta-block}
use dipp.Transfer.Protocol.{
  amount, metadata_of, AllObservations, AnswersAll, dtp_indeces_server-AnswersAll,
}

abbrev one_shot : Shot
one_shot = record { meta = 2 ∷ []; image = 7 ∷ 9 ∷ [] }

abbrev one_element : RingLib
one_element = record {
  is_valid_index = λ index. index == 0;
  element_size = λ index. 7;
  amount_of_elements = 1;
  ring_offset = λ index offset. offset;
  read = λ offset n. take n (drop offset (block one_shot));
  unpack_metadata = λ bytes. some (sample_metadata bytes);
}

one_element-observations : AllObservations one_element
one_element-observations = λ index e. record {
  shot = one_shot;
  meta = sample_metadata (2 ∷ []);
  holds = λ offset n h. refl;
  fits = omega arith;
  unpacks = refl;
}

observation_get_dtp_meta-block_example :
    observation_get_dtp_meta one_element 0 ≡ some (record { index = 0; size = 2; obid = 4 })
observation_get_dtp_meta-block_example =
    observation_get_dtp_meta-block one_element 0 one_shot (λ offset n h. refl) (omega arith)
      (sample_metadata (2 ∷ [])) refl

get_payload_meta-Holds_example :
    (meta : PayloadMeta) × (get_payload_meta one_element 0 ≡ some meta)
    × (meta.size ≡ 7)
    × (read_chunks meta.read 0 0 (3 ∷ 4 ∷ []) ≡ block one_shot)
get_payload_meta-Holds_example =
    get_payload_meta-Holds one_element 0 (block one_shot) (3 ∷ 4 ∷ []) (λ offset n h. refl) refl
      refl refl

-- A packet of these three bytes.
abbrev packet : ℕ → ℕ → ℕ → Packet
packet a b c = record {
  byte_at = λ i. elim i [ ℕ.zero ↦ a | ℕ.suc i ↦ elim i [ ℕ.zero ↦ b | ℕ.suc j ↦ c ] ];
}

dtp_indeces_server-AnswersAll_example :
    (packets : List (List ℕ)) × (dtp_indeces_server one_element (8 ∷ 9 ∷ []) (
        request (packet 0 0 0)
        ∷ no_connection
        ∷ request (packet 1 0 0)
        ∷ request (packet 1 4 1)
        ∷ [])
      ≡ sent packets)
    × AnswersAll one_element one_element-observations 8 9
        (amount ∷ metadata_of 0 ∷ metadata_of 260 ∷ [])
        packets
dtp_indeces_server-AnswersAll_example =
    dtp_indeces_server-AnswersAll one_element one_element-observations 8 9
      (request (packet 0 0 0)
        ∷ no_connection
        ∷ request (packet 1 0 0)
        ∷ request (packet 1 4 1)
        ∷ [])
      (amount ∷ metadata_of 0 ∷ metadata_of 260 ∷ []) (omega arith)
      (refl, ((refl, refl, refl, omega arith), ((refl, refl, refl, omega arith), tt)))
