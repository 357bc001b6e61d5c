-- ===== src/Verify/Replay/Lookup.antt =====
-- Lookups in the dict of holders, after each change and after the final sort.
use tarmac.Prelude.{
  String, ◌≡◌, ◌∙◌, ◌≤◌, refl, Bool, false, not, ◌&&◌, ◌||◌, none, some, List, [], ◌∷◌, ◌++◌,
  filterb, findb, countb, eqb, arith, if◌then◌else◌,
}
use tarmac.Prelude.Text.{◌==◌, member, sorted, sort_by, insert_by, text_leb}
use tarmac.Verify.Replay.{Held, add_held, discard_held, sorted_held}

-- Whether the beneficiary is listed for the resource.
abbrev pub listed : String → String → Held → Bool
listed r b held = elim (findb (λ entry. entry.0 == r) held) [
  | none ↦ false
  | some entry ↦ member b entry.1
]

member-append :
    (b x : String) (bs : List String) → member b (bs ++ x ∷ []) ≡ (member b bs || (b == x))
member-append b x [] = ground arith
member-append b x (y ∷ bs) = ground (arith, member-append b x bs)

member-filterb :
    (b x : String) (bs : List String)
    → member b (filterb (λ y. not (y == x)) bs) ≡ (member b bs && not (b == x))
member-filterb b x [] = ground arith
member-filterb b x (y ∷ bs) = ground (arith, member-filterb b x bs)

pub listed-add_held :
    (r b s c : String) (held : Held)
    → listed r b (add_held s c held) ≡ (((r == s) && (b == c)) || listed r b held)
unfolding add_held
listed-add_held r b s c [] = ground arith
listed-add_held r b s c ((t, bs) ∷ held) =
    ground (arith, listed-add_held r b s c held, member-append b c bs)

pub listed-discard_held :
    (r b s c : String) (held : Held)
    → listed r b (discard_held s c held) ≡ (listed r b held && not ((r == s) && (b == c)))
unfolding discard_held
listed-discard_held r b s c [] = ground arith
listed-discard_held r b s c ((t, bs) ∷ held) =
    ground (arith, listed-discard_held r b s c held, member-filterb b c bs)

member-insert_by :
    (b x : String) (bs : List String) → member b (insert_by text_leb x bs) ≡ member b (x ∷ bs)
unfolding insert_by
member-insert_by b x [] = refl
member-insert_by b x (y ∷ bs) = ground (arith, member-insert_by b x bs)

member-sort_by : (b : String) (bs : List String) → member b (sort_by text_leb bs) ≡ member b bs
unfolding sort_by
member-sort_by b [] = refl
member-sort_by b (x ∷ bs) =
    member-insert_by b x (sort_by text_leb bs) ∙ ground (arith, member-sort_by b bs)

member-sorted : (b : String) (bs : List String) → member b (sorted bs) ≡ member b bs
unfolding sorted
member-sorted b bs = member-sort_by b bs

-- One entry for each resource.
abbrev pub OneEach : Held → Type 0
OneEach held = (k : String) → countb (λ entry. entry.0 == k) held ≤ 1

pub count-add_held :
    (k s c : String) (held : Held)
    → countb (λ entry. entry.0 == k) (add_held s c held) ≡ (
        if (s == k) && eqb (countb (λ entry. entry.0 == k) held) 0
        then 1
        else countb (λ entry. entry.0 == k) held)
unfolding add_held
count-add_held k s c [] = ground arith
count-add_held k s c ((t, bs) ∷ held) = ground (arith, count-add_held k s c held)

pub count-discard_held :
    (k s c : String) (held : Held)
    → countb (λ entry. entry.0 == k) (discard_held s c held) ≡ countb (λ entry. entry.0 == k) held
unfolding discard_held
count-discard_held k s c [] = refl
count-discard_held k s c ((t, bs) ∷ held) = ground (arith, count-discard_held k s c held)

absent :
    (r b : String) (held : Held)
    → countb (λ entry. entry.0 == r) held ≡ 0
    → listed r b (sorted_held held) ≡ false
unfolding sorted_held
absent r b [] h = refl
absent r b ((t, []) ∷ held) h = absent r b held (ground arith)
absent r b ((t, c ∷ bs) ∷ held) h = ground (arith, absent r b held)

pub listed-sorted_held :
    (r b : String) (held : Held) → OneEach held → listed r b (sorted_held held) ≡ listed r b held
unfolding sorted_held
listed-sorted_held r b [] h = refl
listed-sorted_held r b ((t, []) ∷ held) h =
    ground (arith, h r, absent r b held, listed-sorted_held r b held (λ k. ground (arith, h k)))
listed-sorted_held r b ((t, c ∷ bs) ∷ held) h =
    ground (arith, member-sorted b (c ∷ bs), listed-sorted_held r b held (λ k. ground (arith, h k)))
