-- ===== src/Push.antt =====
-- server/app/web.py and consumer.py: a queue message comes to the handler of its stage, and what the handler
-- raises is recorded and answered by a 5xx, upon which the broker delivers the message again.
pub mod Backed
pub mod Handlers
pub mod Reachable
mod Examples
use image_genie.Base.{ℕ, ◌+◌, ◌-◌, ◌/◌, Option, ◌++◌, arith, Text}
use image_genie.Pipeline.{
  World, PipelineStage, download, convert, normalize, render, Job, Message, Result, ok, err,
  Failure, Action,
}
use image_genie.Pipeline.Mesh.{Tools}
use image_genie.Pipeline.Download
use image_genie.Pipeline.Convert
use image_genie.Pipeline.Normalize
use image_genie.Pipeline.Render
use image_genie.DeadLetters.{DeadLetters, record_failure, retry_failure}

pub record System : Type 0 where
  pub world : World
  pub letters : DeadLetters

module _ {Mesh : Type 0} (tools : Tools Mesh) (describe : Failure → Text) where
  -- `_STAGE_HANDLERS`
  abbrev pub handler : PipelineStage → Job → Action Text
  handler download = Download.process tools
  handler convert = Convert.process tools
  handler normalize = Normalize.process tools
  handler render = Render.process tools

  -- What a push answers, and the failure that it records.
  abbrev pub answer :
      PipelineStage → Job → Option ℕ → ℕ → DeadLetters → Result Text × World → ℕ × System
  answer stage job delivery_attempt now letters (ok _, world) =
      (204, record { world = world; letters = letters })
  answer stage job delivery_attempt now letters (err failure, world) = (
    500,
    record {
      world = world;
      letters = record_failure job.uid stage (describe failure) delivery_attempt now letters;
    },
  )

  unfoldable pub pubsub_push : PipelineStage → Job → Option ℕ → ℕ → System → ℕ × System
  pubsub_push stage job delivery_attempt now system =
      answer stage job delivery_attempt now system.letters (handler stage job system.world)

-- POST /dead-letters/{id}/retry
unfoldable pub retry : ℕ → ℕ → System → ℕ × System
retry id now system =
    let (status, letters, messages) = retry_failure id now system.letters in
    (
      status,
      record {
        world = record system.world { published = system.world.published ++ messages };
        letters = letters;
      },
    )
