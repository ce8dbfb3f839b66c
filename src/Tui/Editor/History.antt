-- ===== src/Tui/Editor/History.antt =====
-- Going back in the history and forward again, and taking a submission back.
use loreloom.Prelude.{
  ℕ, zero, suc, ◌-◌, ◌≡◌, ◌≤◌, ◌<◌, refl, ap, ◌∙◌, true, false, inl, inr, arith, Option, none, some,
  Option-cases, List, [], ◌∷◌, ◌++◌, length, get_elem?, Text, text_beq_refl,
}
use loreloom.Tui.Editor.{
  Unicode, InputEditor, grapheme_count, select_history, history_previous, history_next, submit,
  restore_failed_submission, last_is, pop,
}
use loreloom.Tui.Editor.Places.{get_elem?-within}

module _ (u : Unicode) where
  abbrev pub and_then : Option InputEditor → (InputEditor → Option InputEditor) → Option InputEditor
  and_then none f = none
  and_then (some e) f = f e

  -- A number of steps back, and forward.
  abbrev pub back : ℕ → InputEditor → Option InputEditor
  back zero e = some e
  back (suc n) e = and_then (back n e) (history_previous u)

  abbrev pub forward : ℕ → InputEditor → Option InputEditor
  forward zero e = some e
  forward (suc n) e = and_then (history_next u e) (forward n)

  -- The editor at a place of the history, with a draft.
  abbrev pub recalled : InputEditor → ℕ → Text → InputEditor
  recalled e i t = record e {
    text = t;
    cursor = grapheme_count u t;
    history_index = some i;
    history_draft = some e.text;
  }

  within :
      (e : InputEditor) (i : ℕ)
      → i < length e.history
      → (t : Text) × (get_elem? e.history i ≡ some t)
  within e i h = elim (Option-cases (get_elem? e.history i)) [
    | inl q ↦ absurd (get_elem?-within e.history i h q)
    | inr r ↦ r
  ]

  recalled-previous :
      (e : InputEditor) (i j : ℕ) (t t' : Text)
      → 0 < length e.history
      → i - 1 ≡ j
      → get_elem? e.history j ≡ some t'
      → history_previous u (recalled e i t) ≡ some (recalled e j t')
  unfolding history_previous select_history
  recalled-previous e i j t t' h q g = ground (arith, h, ap (get_elem? e.history) q, q, g)

  recalled-first :
      (e : InputEditor) (t : Text)
      → e.history_index ≡ none
      → 0 < length e.history
      → get_elem? e.history (length e.history - 1) ≡ some t
      → history_previous u e ≡ some (recalled e (length e.history - 1) t)
  unfolding history_previous select_history
  recalled-first e t h b g = ground (arith, h, b, g)

  back-recalled :
      (n : ℕ) (e : InputEditor)
      → e.history_index ≡ none
      → suc n ≤ length e.history
      → (t : Text) × (get_elem? e.history (length e.history - suc n) ≡ some t)
        × (back (suc n) e ≡ some (recalled e (length e.history - suc n) t))
  back-recalled zero e h b =
      let (t, g) = within e (length e.history - 1) (omega (arith, b)) in
      (t, g, recalled-first e t h (omega (arith, b)) g)
  back-recalled (suc n) e h b =
      let (t, g, k) = back-recalled n e h (omega (arith, b)) in
      let (t', g') = within e (length e.history - suc (suc n)) (omega (arith, b)) in
      (
        t',
        g',
        ap (λ o. and_then o (history_previous u)) k
            ∙ recalled-previous e (length e.history - suc n) (length e.history - suc (suc n)) t t'
                (omega (arith, b)) (omega (arith, b)) g',
      )

  -- The draft comes back.
  abbrev pub returned : InputEditor → InputEditor
  returned e = record e {
    cursor = grapheme_count u e.text;
    history_index = none;
    history_draft = none;
  }

  recalled-next :
      (e : InputEditor) (i j : ℕ) (t t' : Text)
      → suc i ≡ j
      → j < length e.history
      → get_elem? e.history j ≡ some t'
      → history_next u (recalled e i t) ≡ some (recalled e j t')
  unfolding history_next select_history
  recalled-next e i j t t' q h g = ground (arith, h, ap (get_elem? e.history) q, q, g)

  recalled-last :
      (e : InputEditor) (i : ℕ) (t : Text)
      → suc i ≡ length e.history
      → history_next u (recalled e i t) ≡ some (returned e)
  unfolding history_next
  recalled-last e i t q = ground (arith, q)

  forward-returned :
      (n : ℕ) (e : InputEditor) (t : Text)
      → suc n ≤ length e.history
      → forward (suc n) (recalled e (length e.history - suc n) t) ≡ some (returned e)
  forward-returned zero e t b =
      ap (λ o. and_then o (forward 0)) (recalled-last e (length e.history - 1) t (omega (arith, b)))
  forward-returned (suc n) e t b =
      let (t', g) = within e (length e.history - suc n) (omega (arith, b)) in
      ap (λ o. and_then o (forward (suc n)))
        (recalled-next e (length e.history - suc (suc n)) (length e.history - suc n) t t'
          (omega (arith, b)) (omega (arith, b)) g)
      ∙ forward-returned n e t' (omega (arith, b))

  -- Some steps back in the history, no more than it is long, from an editor that is at no place of
  -- it, and as many steps forward, give the editor with its text again, the cursor at the end.
  pub forward-back :
      (n : ℕ) (e : InputEditor)
      → e.history_index ≡ none
      → suc n ≤ length e.history
      → and_then (back (suc n) e) (forward (suc n)) ≡ some (returned e)
  forward-back n e h b =
      let (t, g, k) = back-recalled n e h b in
      ap (λ o. and_then o (forward (suc n))) k ∙ forward-returned n e t b

  last_is-append : (ts : List Text) (t : Text) → last_is (ts ++ t ∷ []) t ≡ true
  last_is-append [] t = text_beq_refl t
  last_is-append (x ∷ []) t = text_beq_refl t
  last_is-append (x ∷ y ∷ ts) t = last_is-append (y ∷ ts) t

  pop-append : (ts : List Text) (t : Text) → pop (ts ++ t ∷ []) ≡ ts
  pop-append [] t = refl
  pop-append (x ∷ []) t = refl
  pop-append (x ∷ y ∷ ts) t = ap (λ r. x ∷ r) (pop-append (y ∷ ts) t)

  -- Submitting a text that is not blank and taking the failed submission back gives the editor with
  -- its text and its history again, the cursor at the end and no place in the history.
  pub restore_failed_submission-submit :
      (e : InputEditor)
      → u.is_blank e.text ≡ false
      → restore_failed_submission u e.text (submit u e).0 ≡ returned e
  unfolding restore_failed_submission submit
  restore_failed_submission-submit e h =
      ground (arith, h, last_is-append e.history e.text, pop-append e.history e.text)
