-- ===== src/Deadlock/Detector/Reports.antt =====
-- What a scan reports: deadlocks with consecutive ids, each under a key that had not fired.
use tarmac.Prelude.{
  ℕ, suc, ◌+◌, String, ◌≡◌, ◌∙◌, ap, refl, sym, Bool, true, false, List, [], ◌∷◌, ◌++◌, map, length,
  arith, inl, inr, Bool-cases, if◌then◌else◌,
}
use tarmac.Prelude.Text.{member}
use tarmac.Prelude.Dict.{at_key_or}
use tarmac.Schemas.{all_distinct}
use tarmac.Ledger.Tables.{Ledger}
use tarmac.Currency.Bank.{Contest}
use tarmac.Deadlock.Detector.{
  Deadlock, Detector, Info, deadlock_id_text, fire, and_then, cycle_deadlock, report_cycles,
  streak_deadlock, streak_key, report_streak, report_streaks, end_streaks, scan,
}

-- The ids that follow a number, one for each deadlock.
abbrev pub ids_after : ℕ → List Deadlock → List String
ids_after n [] = []
ids_after n (x ∷ xs) = deadlock_id_text (suc n) ∷ ids_after (suc n) xs

abbrev pub ids : List Deadlock → List String
ids xs = map (λ x. x.id) xs

pub record Reported (d : Detector) (found : List Deadlock) (after : Detector) : Type 0 where
  pub numbered : ids found ≡ ids_after d.seq found
  pub counted : after.seq ≡ d.seq + length found
  pub recorded : length after.fired ≡ length d.fired + length found
  pub once : all_distinct d.fired ≡ true → all_distinct after.fired ≡ true

nothing-Reported :
    (d after : Detector) → after.seq ≡ d.seq → after.fired ≡ d.fired → Reported d [] after
nothing-Reported d after same_seq same_fired = record {
  numbered = refl;
  counted = ground (arith, same_seq);
  recorded = ground (arith, ap length same_fired);
  once = λ h. ap all_distinct same_fired ∙ h;
}

fire-Reported :
    (key : String) (deadlock : String → Deadlock) (d : Detector)
    → ((i : String) → (deadlock i).id ≡ i)
    → Reported d (fire key deadlock d).0 (fire key deadlock d).1
unfolding fire all_distinct
fire-Reported key deadlock d named = elim (Bool-cases (member key d.fired)) [
  | inl known ↦ rw known (nothing-Reported d d refl refl)
  | inr fresh ↦ rw fresh (record {
    numbered = ap (λ i. i ∷ []) (named _);
    counted = ground arith;
    recorded = ground arith;
    once = λ h. ground (arith, fresh, h);
  })
]

ids_after-append :
    (n : ℕ) (xs ys : List Deadlock)
    → ids_after n (xs ++ ys) ≡ ids_after n xs ++ ids_after (n + length xs) ys
ids_after-append n [] ys = ap (λ m. ids_after m ys) (ground arith)
ids_after-append n (x ∷ xs) ys =
    ap (λ rest. deadlock_id_text (suc n) ∷ rest)
      (ids_after-append (suc n) xs ys
        ∙ ap (λ m. ids_after (suc n) xs ++ ids_after m ys) (ground arith))

ids-append : (xs ys : List Deadlock) → ids (xs ++ ys) ≡ ids xs ++ ids ys
ids-append [] ys = refl
ids-append (x ∷ xs) ys = ap (λ rest. x.id ∷ rest) (ids-append xs ys)

length-append : (xs ys : List Deadlock) → length (xs ++ ys) ≡ length xs + length ys
length-append [] ys = ground arith
length-append (x ∷ xs) ys = ground (arith, length-append xs ys)

then-Reported :
    (d d' d'' : Detector) (xs ys : List Deadlock)
    → Reported d xs d'
    → Reported d' ys d''
    → Reported d (xs ++ ys) d''
then-Reported d d' d'' xs ys h k = record {
  numbered =
      ids-append xs ys
      ∙ ap (λ u. u ++ ids ys) h.numbered
      ∙ ap (λ v. ids_after d.seq xs ++ v) (k.numbered ∙ ap (λ n. ids_after n ys) h.counted)
      ∙ sym (ids_after-append d.seq xs ys);
  counted = ground (arith, h.counted, k.counted, length-append xs ys);
  recorded = ground (arith, h.recorded, k.recorded, length-append xs ys);
  once = λ e. k.once (h.once e);
}

-- The streaks take no part in it.
new_streaks-Reported :
    (d : Detector) (streaks : List (String × ℕ)) (found : List Deadlock) (after : Detector)
    → Reported (record d { streaks = streaks }) found after
    → Reported d found after
new_streaks-Reported d streaks found after k = record {
  numbered = k.numbered;
  counted = k.counted;
  recorded = k.recorded;
  once = k.once;
}

either-Reported :
    (b : Bool) (d : Detector) (p q : List Deadlock × Detector)
    → Reported d p.0 p.1
    → Reported d q.0 q.1
    → Reported d (if b then p else q).0 (if b then p else q).1
either-Reported true d p q h k = h
either-Reported false d p q h k = k

report_cycles-Reported :
    (involved : List (String × Info)) (round : ℕ) (comps : List (List String)) (d : Detector)
    → Reported d (report_cycles involved round comps d).0 (report_cycles involved round comps d).1
unfolding report_cycles and_then cycle_deadlock
report_cycles-Reported involved round [] d = nothing-Reported d d refl refl
report_cycles-Reported involved round (comp ∷ comps) d =
    then-Reported d _ _ _ _ (fire-Reported _ (cycle_deadlock involved comp round) d (λ i. refl))
      (report_cycles-Reported involved round comps _)

report_streak-Reported :
    (in_cycles : List String) (round : ℕ) (r : String) (info : Info) (d : Detector)
    → Reported d
        (report_streak in_cycles round (r, info) d).0
        (report_streak in_cycles round (r, info) d).1
unfolding report_streak streak_deadlock
report_streak-Reported in_cycles round r info d =
    either-Reported _ d _ _
      (new_streaks-Reported d _ _ _ (
        fire-Reported (streak_key r info)
          (streak_deadlock r info (suc (at_key_or 0 r d.streaks)) round) _ (λ i. refl)))
      (nothing-Reported d _ refl refl)

report_streaks-Reported :
    (in_cycles : List String) (round : ℕ) (rows : List (String × Info)) (d : Detector)
    → Reported d (report_streaks in_cycles round rows d).0 (report_streaks in_cycles round rows d).1
unfolding report_streaks and_then
report_streaks-Reported in_cycles round [] d = nothing-Reported d d refl refl
report_streaks-Reported in_cycles round ((r, info) ∷ rows) d =
    then-Reported d _ _ _ _ (report_streak-Reported in_cycles round r info d)
      (report_streaks-Reported in_cycles round rows _)

-- A scan, of any detector: its deadlocks have the ids that follow the last one given, the counter
-- and the fired keys grow by as many as it reports, and no key is in the fired ones twice.
pub scan-Reported :
    (l : Ledger) (open_contests : List Contest) (round : ℕ) (d : Detector)
    → Reported d (scan l open_contests round d).0 (scan l open_contests round d).1
unfolding scan end_streaks
scan-Reported l open_contests round d =
    then-Reported d _ _ _ _ (report_cycles-Reported _ round _ d)
      (new_streaks-Reported _ _ _ _ (report_streaks-Reported _ round _ _))
