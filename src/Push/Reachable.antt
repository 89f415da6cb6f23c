-- ===== src/Push/Reachable.antt =====
-- What holds after any deliveries and retries, in any order.
use image_genie.Base.{ℕ, ◌≡◌, refl, sym, ap, Option, List, arith, Text, codes}
use image_genie.Pipeline.{
  World, PipelineStage, download, convert, normalize, render, Job, Message, Result, ok, err,
  Failure, exists,
}
use image_genie.Pipeline.Mesh.{Tools}
use image_genie.Pipeline.Convert.Laws.{already_done-convert, convert_there}
use image_genie.Pipeline.Normalize.Laws.{already_done-normalize, normalize_there}
use image_genie.Pipeline.Render.Laws.{
  OneImageAView, complete-process, process_of_complete, process-eq_ok,
}
use image_genie.Pipeline.Download.Laws.{already_downloaded-process, process_of_there}
use image_genie.DeadLetters.{DeadLetters, retry_failure}
use image_genie.DeadLetters.Table.{IsWellFormed, IsWellFormed-record_failure}
use image_genie.DeadLetters.History.{IsWellFormed-replay}
use image_genie.Push.{System, handler, answer, pubsub_push, retry}
use image_genie.Push.Backed.{IsBacked, IsBacked-Grows}
use image_genie.Push.Handlers.{handler-backed}

pub record IsSound (s : System) : Type 0 where
  pub world : IsBacked s.world
  pub letters : IsWellFormed s.letters

IsSound-retry : (id now : ℕ) (s : System) → IsSound s → IsSound (retry id now s).1
unfolding retry retry_failure exists
IsSound-retry id now s h = record {
  world = IsBacked-Grows s.world _ refl refl (record { at = λ k e. e }) h.world;
  letters = IsWellFormed-replay id now s.letters h.letters;
}

module _ {Mesh : Type 0} (tools : Tools Mesh) (describe : Failure → Text) where
  IsSound-answer :
      (stage : PipelineStage) (job : Job) (delivery_attempt : Option ℕ) (now : ℕ)
      (letters : DeadLetters) (after : Result Text × World)
      → IsBacked after.1
      → IsWellFormed letters
      → IsSound (answer tools describe stage job delivery_attempt now letters after).1
  IsSound-answer stage job delivery_attempt now letters (ok r, world) b h = record {
    world = b;
    letters = h;
  }
  IsSound-answer stage job delivery_attempt now letters (err e, world) b h = record {
    world = b;
    letters = IsWellFormed-record_failure job.uid stage (describe e) delivery_attempt now letters h;
  }

  IsSound-pubsub_push :
      (stage : PipelineStage) (job : Job) (delivery_attempt : Option ℕ) (now : ℕ) (s : System)
      → OneImageAView tools
      → IsSound s
      → IsSound (pubsub_push tools describe stage job delivery_attempt now s).1
  unfolding pubsub_push
  IsSound-pubsub_push stage job delivery_attempt now s one h =
      IsSound-answer stage job delivery_attempt now s.letters
        (handler tools describe stage job s.world)
        ((handler-backed tools describe one stage job).at s.world h.world) h.letters

  answer-eq_204 :
      (stage : PipelineStage) (job : Job) (delivery_attempt : Option ℕ) (now : ℕ)
      (letters : DeadLetters) (after : Result Text × World) (t : System)
      → answer tools describe stage job delivery_attempt now letters after ≡ (204, t)
      → (r : Text) × (after ≡ (ok r, t.world)) × (t.letters ≡ letters)
  answer-eq_204 stage job delivery_attempt now letters (ok r, world) t h =
      let same : record { world = world; letters = letters } ≡ t = ap (λ p. p.1) h in
      (r, ap (λ s. (ok r, s.world)) same, ap (λ s. s.letters) (sym same))
  answer-eq_204 stage job delivery_attempt now letters (err e, world) t h =
      let differ : 500 ≡ 204 = ap (λ p. p.0) h in absurd (omega (arith, differ))

module _ (Mesh : Type 0) (describe : Failure → Text) where
  -- The broker delivers any message, as often as it likes and in any order, and administrators retry failures.
  -- Each delivery has its own external tools: what a mirror does not answer at one it may answer at the next.
  pub data Steps : System → System → Type 0 where
    begin : {s : System} → Steps s s
    delivered :
        {s t : System}
        → Steps s t
        → (tools : Tools Mesh) → OneImageAView tools
        → (stage : PipelineStage) (job : Job) (delivery_attempt : Option ℕ) (now : ℕ)
        → Steps s (pubsub_push tools describe stage job delivery_attempt now t).1
    retried : {s t : System} → Steps s t → (id now : ℕ) → Steps s (retry id now t).1

  -- Whatever messages are delivered to whatever stages, how often and in what order, whatever the tools answer at each
  -- delivery, and whatever is retried: if in the beginning every row that says it is done has its blobs and the failures
  -- are well formed, then in the end too. The renderer makes one image for each camera pose.
  pub IsSound-Steps : (s t : System) → IsSound s → Steps s t → IsSound t
  IsSound-Steps s t h begin = h
  IsSound-Steps s t h (delivered steps tools one stage job delivery_attempt now) =
      IsSound-pubsub_push tools describe stage job delivery_attempt now _ one
        (IsSound-Steps s _ h steps)
  IsSound-Steps s t h (retried steps id now) = IsSound-retry id now _ (IsSound-Steps s _ h steps)

module _ {Mesh : Type 0} (describe : Failure → Text) where
  handler_again :
      (tools tools' : Tools Mesh) (stage : PipelineStage) (job : Job) (w w' : World) (r : Text)
      → OneImageAView tools
      → handler tools describe stage job w ≡ (ok r, w')
      → (ms : List Message) × (handler tools' describe stage job w'
          ≡ (ok (codes "skipped"), record w' { published = ms }))
  handler_again tools tools' download job w w' r one h =
      (_, process_of_there tools' job w' (already_downloaded-process tools job w w' r h))
  handler_again tools tools' convert job w w' r one h =
      let (v, known, there) = already_done-convert tools job w w' r h in
      (_, convert_there tools' job v w' known there)
  handler_again tools tools' normalize job w w' r one h =
      let (v, known, there) = already_done-normalize tools job w w' r h in
      (_, normalize_there tools' job v w' known there)
  handler_again tools tools' render job w w' r one h =
      let (v, known) = process-eq_ok tools job w w' r h in
      (
        w'.published,
        process_of_complete tools' job v w' known (complete-process tools job v w w' r one known h),
      )

  -- A message that a stage acknowledged and that is delivered to it again is acknowledged again, at whatever attempt
  -- and whatever the external tools answer by then, and changes no model row, no artifact row, no blob and no recorded
  -- failure. At the first delivery the renderer makes one image for each camera pose.
  pub pubsub_push_again :
      (tools tools' : Tools Mesh) (stage : PipelineStage) (job : Job) (a b : Option ℕ)
      (now later : ℕ) (s t : System)
      → OneImageAView tools
      → pubsub_push tools describe stage job a now s ≡ (204, t)
      → ((pubsub_push tools' describe stage job b later t).0 ≡ 204)
        × ((pubsub_push tools' describe stage job b later t).1.world.models ≡ t.world.models)
        × ((pubsub_push tools' describe stage job b later t).1.world.artifacts ≡ t.world.artifacts)
        × ((pubsub_push tools' describe stage job b later t).1.world.blobs ≡ t.world.blobs)
        × ((pubsub_push tools' describe stage job b later t).1.letters ≡ t.letters)
  unfolding pubsub_push
  pubsub_push_again tools tools' stage job a b now later s t one h =
      let (r, ran, _) =
        answer-eq_204 tools describe stage job a now s.letters
          (handler tools describe stage job s.world) t h in
      let (ms, again) = handler_again tools tools' stage job s.world t.world r one ran in
      rw again (refl, refl, refl, refl, refl)
