-- ===== src/Lib.antt =====
-- The development follows DIPP, the program that runs pipelines of image processing modules on a
-- satellite. A batch of images arrives as a message in a System V queue and lies in a shared memory
-- segment. The program looks up the pipeline that the batch names, runs each module of it in a process
-- of its own, which hands back a batch through a pipe, uploads the images of the last batch into a ring
-- buffer, and removes the segment. Pipelines and the parameters of modules are cached from parameters
-- that ground control sets. Errors become one number in a parameter.
--
-- Parts and files:
--   Base, Base/*       lists, words, signed integers and text over the native numbers
--   Types              the structs: ImageBatch (src/include/dipp_process.h), Module, Pipeline and
--                      ModuleParameterList (src/include/dipp_config.h), and the unpacked messages
--                      (src/include/protobuf)
--   Machine, Machine/* the global variables (State), the calls that leave the program (Event), what
--                      they answer (Env), calls as functions from a state to an outcome (M), and what a
--                      call guarantees (Hoare, Trace)
--   Errors, Errors/*   src/dipp_error.c and src/include/dipp_error.h
--   Config, Config/*   src/dipp_config.c: Buffer has get_param_buffer and load_module, Pipelines
--                      setup_pipeline, Modules setup_module_config, Cache the whole of the cache, Spec
--                      the tables as a function of what stands in the parameters
--   Logger, Logger/*   src/logger.c
--   Upload, Upload/*   src/vmem/vmem_upload_local.c
--   Process, Process/* src/dipp_process.c: Pipes and Child have the pipes and the process of a module,
--                      Execute execute_module_in_process and execute_pipeline, Batch process, Queue
--                      get_message_from_queue, Loop process_one and process_all, Save save_images
--   Storage, Storage/* src/include/vmem/vmem_storage.h and the parameters that lie in the file
--   Thread, Thread/*   src/dipp_process.c: callback_run and process_thread as a step relation
--   Transfer, Transfer/* src/vmem/vmem_dtp_server.c: what the server tells of the ring buffer, and its
--                      protocol
--   Remote, Remote/*   src/vmem/vmem_upload.c: Plan where the data goes, Defs the calls around it
--   Start, Start/*     src/main.c: the options, the interface and the start of the threads
--   Camera, Camera/*   sim/camera_control.c: Defs the segment that the simulated camera fills, Main the
--                      program around it; Delivered has it and src/dipp_process.c as one system
--   Messages, Messages/* src/protobuf/*.pb-c.c: the tables of the generated code, and in Functions its
--                      functions; protos/*.proto: the schemas
--   Samples            a small outside world for the tests
--
-- A function of the program has its name here, in state passing: M A is State → Outcome A, and an
-- outcome is a result with the final state, an endless wait, or undefined behaviour. The kernel, the
-- allocator, libparam, brotli, protobuf-c, the dynamic linker and the modules are fields of Env, and
-- every answer may depend on all that has happened before. A loop of the program is a recursive
-- function of the same purpose: over the elements that are left, over the number of rounds that its
-- counter allows (run_modules, upload_images), or on fuel (process_all, whose loop ends when no message
-- is there). Integers of C wrap around where the code computes with them: `% 2 ^ 32` and to_i32.
--
-- The child and the parent of a fork are one sequence of steps, for the parent does nothing between
-- `fork` and `waitpid`. What a module writes into memory is lost with its process, so a run of a module
-- is its end (ModuleRun), with the words that it wrote into the error pipe. A pipe holds whole items,
-- and no write to it waits.
--
-- Fuel: process_all gets one round for each message of the queue and one for the queue that is empty. The
-- loop of the remote upload that moves the tail gets ten rounds, one for each entry of the list, for it
-- visits the entries in turn. The loop of the server runs over the list of the connections that arrive.
-- The camera takes the size of an image, which the source computes from constants, as an argument.
-- Its ImageBatch is declared in camera_control.h, a header that is not in the repository: how this
-- struct lies in memory is a parameter (struct_bytes of Camera.Main). The README of the repository shows
-- an ImageBatch without shmid and pipeline_id, which the camera program sets.
--
-- A read or a write behind a buffer is undefined behaviour, also where brotli is told of more bytes than
-- a parameter has. The ends of the pipes that the parent holds open are a list in State; to close an end
-- takes it out. shmdt is called with an address, which the model passes on as a number.
--
-- The generated functions take protobuf-c as a parameter (Messages.Structs), with a struct as its base
-- and its contents; a failed assertion is `none`. Env has what metadata__unpack and the two other
-- functions for unpacking answer. sim/metadata.pb-c.c and sim/metadata.pb-c.h are copies of the files
-- in src, and their model is the same.
--
-- Not modelled: the calls of printf and perror; stb_image_write; the libraries that are called (libcsp,
-- libparam, libvmem, libdtp, protobuf-c, brotli) beyond what they answer.
pub mod Base
pub mod Camera
pub mod Config
pub mod Errors
pub mod Logger
pub mod Machine
pub mod Messages
pub mod Process
pub mod Remote
pub mod Samples
pub mod Start
pub mod Storage
pub mod Thread
pub mod Transfer
pub mod Types
pub mod Upload
