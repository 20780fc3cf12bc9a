-- ===== src/Types.antt =====
-- The data that the components hand to one another: src/include/dipp_process.h (ImageBatch),
-- src/include/dipp_config.h (the cached configuration) and the messages of
-- src/include/protobuf/*.pb-c.h that the program reads.
use dipp.Base.{ℕ, List, Option}
use dipp.Base.Int.{ℤ}

-- A C string without its final zero.
abbrev pub Text : Type 0
Text = List ℕ

-- The return codes SUCCESS (0) and FAILURE (-1).
pub data Status : Type 0 where
  success failure : Status

-- The address of the image data is the number that the message holds; nothing reads through it
-- before `process` has set it.
pub record ImageBatch : Type 0 where
  pub mtype : ℕ
  pub num_images : ℤ
  pub batch_size : ℤ
  pub shmid : ℤ
  pub pipeline_id : ℤ
  pub image_data : ℕ

-- `module_function` is the symbol `run` of a loaded library, `none` for NULL.
pub record Module : Type 0 where
  pub module_name : Option Text
  pub module_function : Option ℕ
  pub module_param_id : ℤ

pub record Pipeline : Type 0 where
  pub pipeline_id : ℤ
  pub modules : List Module
  pub num_modules : ℕ

-- The union of a module parameter with its tag; a float is its bit pattern. `none` for a string is
-- a NULL pointer.
pub data ParameterValue : Type 0 where
  not_set : ParameterValue
  bool_value : ℤ → ParameterValue
  int_value : ℤ → ParameterValue
  float_value : ℕ → ParameterValue
  string_value : Option Text → ParameterValue

pub record ModuleParameter : Type 0 where
  pub key : Option Text
  pub value : ParameterValue

-- The pointer `parameters`: NULL, an array of pointers of which these are filled, or an array that
-- has been freed.
pub data Parameters : Type 0 where
  null_array : Parameters
  filled : List ModuleParameter → Parameters
  freed : Parameters

pub record ModuleParameterList : Type 0 where
  pub n_parameters : ℕ
  pub parameters : Parameters

-- Unpacked messages. In the message of a parameter the tag of the `oneof` and its value are one
-- constructor.
pub record ModuleDefinition : Type 0 where
  pub order : ℤ
  pub name : Text
  pub param_id : ℤ

pub record PipelineDefinition : Type 0 where
  pub modules : List ModuleDefinition

pub data ConfigValue : Type 0 where
  value_not_set : ConfigValue
  value_bool : ℤ → ConfigValue
  value_int : ℤ → ConfigValue
  value_float : ℕ → ConfigValue
  value_string : Text → ConfigValue

pub record ConfigParameter : Type 0 where
  pub key : Text
  pub value : ConfigValue

pub record ModuleConfig : Type 0 where
  pub parameters : List ConfigParameter

pub data MetadataValue : Type 0 where
  meta_not_set : MetadataValue
  meta_bool : ℤ → MetadataValue
  meta_int : ℤ → MetadataValue
  meta_float : ℕ → MetadataValue
  meta_string : Text → MetadataValue

pub record MetadataItem : Type 0 where
  pub key : Text
  pub value : MetadataValue

-- The metadata of an image, which stands before it in a batch.
pub record Metadata : Type 0 where
  pub size : ℤ
  pub height : ℤ
  pub width : ℤ
  pub channels : ℤ
  pub timestamp : ℤ
  pub bits_pixel : ℤ
  pub obid : ℤ
  pub camera : Text
  pub items : List MetadataItem
