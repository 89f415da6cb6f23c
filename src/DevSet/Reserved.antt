-- ===== src/DevSet/Reserved.antt =====
-- The reservation of a selection's models: complete, repeatable, and never taken back.
use image_genie.Base.{
  ℕ, ◌-◌, ◌≡◌, refl, ◌∙◌, inl, inr, Bool, true, false, ◌&&◌, ◌||◌, Option, List, [], ◌∷◌, arith,
  Bool-cases, ◌==◌, beq_refl, All, Text, text_beq_iff, text_eq, nat_eq,
}
use image_genie.Pipeline.{World, Blob}
use image_genie.DevSet.{
  Reader, Sample, DevSetMember, returns, is_reserved, reserve, members_of, load_dev_set,
  mark_dev_set,
}

abbrev pub is_selected : Text → List Sample → Bool
is_selected uid [] = false
is_selected uid (sample ∷ samples) = (sample.0 == uid) || is_selected uid samples

is_reserved-reserve :
    (name : Text) (samples : List Sample) (rows : List DevSetMember) (uid other : Text)
    → is_reserved uid other (reserve name samples rows)
      ≡ (is_reserved uid other rows || ((name == other) && is_selected uid samples))
unfolding reserve
is_reserved-reserve name [] rows uid other = ground arith
is_reserved-reserve name (sample ∷ samples) rows uid other =
    elim (Bool-cases (is_reserved sample.0 name rows)) [
      | inr fresh ↦
          let row : DevSetMember = record { model_uid = sample.0; dev_set = name } in
          let step = is_reserved-reserve name samples (row ∷ rows) uid other in
          rw fresh (step ∙ shuffle (sample.0 == uid) (name == other) _ _)
      | inl there ↦
          let step = is_reserved-reserve name samples rows uid other in
          rw there (
            step ∙ elim (Bool-cases ((name == other) && (sample.0 == uid))) [
              | inl same ↦
                  let uids : sample.0 ≡ uid = ground (arith, text_beq_iff sample.0 uid, same) in
                  let names : name ≡ other = ground (arith, text_beq_iff name other, same) in
                  let known : is_reserved uid other rows ≡ true = rw (← uids, ← names) there in
                  rw known refl
              | inr differs ↦
                  without (is_reserved uid other rows) (name == other) (sample.0 == uid) _ differs
            ])
    ]
  where
    shuffle : (s n r m : Bool) → (((s && n) || r) || (n && m)) ≡ (r || (n && (s || m)))
    shuffle true true true m = refl
    shuffle true true false m = refl
    shuffle true false r m = refl
    shuffle false n r m = refl

    without : (r n s m : Bool) → (n && s) ≡ false → (r || (n && m)) ≡ (r || (n && (s || m)))
    without r true true m h = absurd (ground (arith, h))
    without r true false m h = refl
    without r false s m h = refl

reserve_again :
    (name : Text) (samples : List Sample) (rows : List DevSetMember)
    → All (λ (sample : Sample). is_reserved sample.0 name rows ≡ true) samples
    → reserve name samples rows ≡ rows
unfolding reserve
reserve_again name [] rows h = refl
reserve_again name (sample ∷ samples) rows (h, hs) = rw h (reserve_again name samples rows hs)

All-is_selected :
    (P : Text → Type 0) (samples : List Sample)
    → ((uid : Text) → is_selected uid samples ≡ true → P uid)
    → All (λ (sample : Sample). P sample.0) samples
All-is_selected P [] h = tt
All-is_selected P (sample ∷ samples) h = (
  h sample.0 (rw (beq_refl sample.0) refl),
  All-is_selected P samples (λ uid there. h uid (rw there (ground arith))),
)

-- Marking a selection that loads and has rows reserves exactly its models, besides those that were reserved, for
-- this dev set and no other; marking it once more adds none, says so, and changes nothing.
pub mark_dev_set-reserves :
    (reader : Reader) (file : Option Blob) (name : Text) (w : World) (rows : List DevSetMember)
    (sample : Sample) (samples : List Sample)
    → load_dev_set reader file name w ≡ returns (sample ∷ samples)
    → ((uid other : Text)
        → is_reserved uid other (mark_dev_set reader file name w rows).1
          ≡ (is_reserved uid other rows || ((name == other) && is_selected uid (sample ∷ samples))))
      × (mark_dev_set reader file name w (mark_dev_set reader file name w rows).1
          ≡ (returns 0, (mark_dev_set reader file name w rows).1))
unfolding mark_dev_set
mark_dev_set-reserves reader file name w rows sample samples loads =
    let after = reserve name (sample ∷ samples) rows in
    let reserved = is_reserved-reserve name (sample ∷ samples) rows in
    let again : reserve name (sample ∷ samples) after ≡ after =
      reserve_again name (sample ∷ samples) after (
        All-is_selected (λ uid. is_reserved uid name after ≡ true) (sample ∷ samples)
          (λ uid there. reserved uid name ∙ rw (there, beq_refl name) (ground arith))) in
    rw loads (reserved, rw (again, self_minus (members_of name after)) refl)
  where
    self_minus : (n : ℕ) → n - n ≡ 0
    self_minus n = omega arith
