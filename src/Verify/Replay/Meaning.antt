-- ===== src/Verify/Replay/Meaning.antt =====
-- What the replayed manifest means: who holds what is what the last event about it says.
use tarmac.Prelude.{
  String, ◌≡◌, ◌∙◌, ap, refl, sym, subst, Bool, true, false, not, ◌&&◌, ◌||◌, Option, none, some,
  List, [], ◌∷◌, arith, inl, inr, ◌⊎◌, if◌then◌else◌,
}
use tarmac.Prelude.Text.{◌==◌}
use tarmac.Json.{Json, null, bool, int, str, arr, obj, get}
use tarmac.Storage.Runs.{bind_ok, bind_err, bind_returned, raised_or_returned}
use tarmac.Storage.{Error, Result, key_error, type_error, ok, err, lift, modify, pure}
use tarmac.ChainLog.{LogEntry}
use tarmac.Verify.Replay.{
  Held, add_held, discard_held, read_text, text_item, replay_change, replay_entry, replay_entries,
  sorted_held, replay_manifest,
}
use tarmac.Verify.Replay.Lookup.{
  listed, OneEach, listed-add_held, listed-discard_held, count-add_held, count-discard_held,
  listed-sorted_held,
}

abbrev pub names : String → Option Json → Bool
names s (some (str c)) = s == c
names s _ = false

-- Whether a body names the two.
abbrev pub about : String → String → Json → Bool
about r b body = names r (get "resource" body) && names b (get "beneficiary" body)

module _ {S : Type 0} (k : String) (body : Json) (s : S) where
  -- The field is a text, or the read raises.
  text_item_cases :
      ((c : String) × (get k body ≡ some (str c)) × (text_item {S = S} k body s ≡ (ok c, s)))
      ⊎ ((e : Error) × (text_item {S = S} k body s ≡ (err e, s)))
  unfolding text_item read_text lift
  text_item_cases = by_value (get k body) refl
    where
      by_value :
          (v : Option Json)
          → get k body ≡ v
          → ((c : String) × (get k body ≡ some (str c)) × (text_item {S = S} k body s ≡ (ok c, s)))
            ⊎ ((e : Error) × (text_item {S = S} k body s ≡ (err e, s)))
      by_value none at = inr (key_error, ap (λ v. (read_text v, s)) at)
      by_value (some (str c)) at = inl (c, at, ap (λ v. (read_text v, s)) at)
      by_value (some null) at = inr (type_error, ap (λ v. (read_text v, s)) at)
      by_value (some (bool x)) at = inr (type_error, ap (λ v. (read_text v, s)) at)
      by_value (some (int x)) at = inr (type_error, ap (λ v. (read_text v, s)) at)
      by_value (some (arr x)) at = inr (type_error, ap (λ v. (read_text v, s)) at)
      by_value (some (obj x)) at = inr (type_error, ap (λ v. (read_text v, s)) at)

-- An event that is replayed names a resource and a beneficiary, and makes its change to them.
replay_change-about :
    (change : String → String → Held → Held) (body : Json) (held : Held) (x : Unit {0})
    → (replay_change change body held).0 ≡ ok x
    → (s : String) × (c : String) × ((replay_change change body held).1 ≡ change s c held)
      × ((r b : String) → about r b body ≡ ((r == s) && (b == c)))
unfolding replay_change modify
replay_change-about change body held x done = elim (text_item_cases "resource" body held) [
  | inr (e, raised) ↦ absurd (raised_or_returned e _ held x (bind_err _ _ held held e raised) done)
  | inl (s, named, read) ↦ elim (text_item_cases "beneficiary" body held) [
    | inr (e, raised) ↦ absurd (
        raised_or_returned e _ held x
          (bind_ok _ _ held held s read ∙ bind_err _ _ held held e raised) done)
    | inl (c, named', read') ↦ (
      s,
      c,
      ap (λ p. p.1) (bind_ok _ _ held held s read ∙ bind_ok _ _ held held c read'),
      λ r b. rw (named, named') refl,
    )
  ]
]

-- What an event says of the two, `now` where it says nothing.
unfoldable pub says : String → String → LogEntry → Bool → Bool
says r b e now =
    if e.kind == "alloc"
    then about r b e.body || now
    else if e.kind == "dealloc"
    then now && not (about r b e.body)
    else now

unfoldable pub last_says : String → String → Bool → List LogEntry → Bool
last_says r b now [] = now
last_says r b now (e ∷ es) = last_says r b (says r b e now) es

-- A replay's state after some events.
record After (held before : Held) (change : String → String → Bool → Bool) : Type 0 where
  listing : (r b : String) → listed r b held ≡ change r b (listed r b before)
  one_each : OneEach before → OneEach held

kind-After :
    (a d : Bool) (body : Json) (held : Held) (x : Unit {0})
    → ((if a
          then replay_change add_held body
          else if d
          then replay_change discard_held body
          else pure tt)
        held).0
      ≡ ok x
    → After
        ((if a
            then replay_change add_held body
            else if d
            then replay_change discard_held body
            else pure tt)
          held).1
        held
        (λ r b now.
          if a then about r b body || now else if d then now && not (about r b body) else now)
unfolding pure
kind-After true d body held x done =
    let (s, c, change, named) = replay_change-about add_held body held x done in
    record {
      listing = λ r b. rw (change, named r b) (listed-add_held r b s c held);
      one_each = λ h k. rw (change, count-add_held k s c held) (ground (arith, h k));
    }
kind-After false true body held x done =
    let (s, c, change, named) = replay_change-about discard_held body held x done in
    record {
      listing = λ r b. rw (change, named r b) (listed-discard_held r b s c held);
      one_each = λ h k. rw (change, count-discard_held k s c held) (h k);
    }
kind-After false false body held x done = record { listing = λ r b. refl; one_each = λ h. h }

replay_entry-After :
    (e : LogEntry) (held : Held) (x : Unit {0})
    → (replay_entry e held).0 ≡ ok x
    → After (replay_entry e held).1 held (λ r b. says r b e)
unfolding replay_entry says
replay_entry-After e held x done =
    kind-After (e.kind == "alloc") (e.kind == "dealloc") e.body held x done

replay_entries-After :
    (es : List LogEntry) (held : Held) (x : Unit {0})
    → (replay_entries es held).0 ≡ ok x
    → After (replay_entries es held).1 held (λ r b now. last_says r b now es)
unfolding replay_entries last_says pure
replay_entries-After [] held x done = record { listing = λ r b. refl; one_each = λ h. h }
replay_entries-After (e ∷ es) held x done =
    let (y, first, run) = bind_returned (replay_entry e) (λ _. replay_entries es) held x done in
    let step = replay_entry-After e held y first in
    let rest =
      replay_entries-After es (replay_entry e held).1 x (subst (λ p. p.0 ≡ ok x) run done) in
    record {
      listing = λ r b.
          ap (λ p. listed r b p.1) run
          ∙ rest.listing r b
          ∙ ap (λ v. last_says r b v es) (step.listing r b);
      one_each = λ h. subst (λ p. OneEach p.1) (sym run) (rest.one_each (step.one_each h));
    }

-- A log that replay_manifest reads lists a beneficiary for a resource exactly when the last alloc
-- or dealloc event that names the two is an alloc event.
pub listed-replay_manifest :
    (entries : List LogEntry) (manifest : List (String × List String)) (r b : String)
    → replay_manifest entries ≡ ok manifest
    → listed r b manifest ≡ last_says r b false entries
unfolding replay_manifest
listed-replay_manifest entries manifest r b e =
    by_result (replay_entries entries []).0 (replay_entries entries []).1
      (λ x. replay_entries-After entries [] x) e
  where
    by_result :
        (p : Result (Unit {0})) (held : Held)
        → ((x : Unit {0}) → p ≡ ok x → After held [] (λ r b now. last_says r b now entries))
        → (elim p as (λ _. Result (List (String × List String))) [
          | ok _ ↦ ok (sorted_held held)
          | err f ↦ err f
        ])
          ≡ ok manifest
        → listed r b manifest ≡ last_says r b false entries
    by_result (ok x) held after done =
        let same : sorted_held held ≡ manifest = ground (arith, done) in
        subst (λ m. listed r b m ≡ last_says r b false entries) same
          (listed-sorted_held r b held ((after x refl).one_each (λ k. ground arith))
            ∙ (after x refl).listing r b)
    by_result (err f) held after done = absurd (ground arith)
