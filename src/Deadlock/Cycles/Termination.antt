-- ===== src/Deadlock/Cycles/Termination.antt =====
-- The loop over `work` ends within its fuel: a node is pushed once, and popped once.
use tarmac.Prelude.{
  ℕ, zero, suc, ◌+◌, ◌*◌, ◌≤◌, String, ◌≡◌, ◌∙◌, ap, refl, sym, subst, Bool, true, false, not, ◌&&◌,
  ◌||◌, List, [], ◌∷◌, ◌++◌, ltb, length, countb, arith, inl, inr, Bool-cases, if◌then◌else◌,
}
use tarmac.Prelude.Text.{◌==◌, member}
use tarmac.Prelude.Dict.{has_key, at_key_or, put_key, set_default}
use tarmac.Deadlock.Cycles.{
  Graph, Search, add_targets, all_targets, graph_of, visit, enter, lower, relax, scan_children,
  drop_first, close_component, leave, turn, turns, fuel_of,
}

-- Every target is a node.
abbrev Closed : Graph → Type 0
Closed g = (n t : String) → member t (at_key_or [] n g) ≡ true → has_key t g ≡ true

member-append :
    (t : String) (xs ys : List String) → member t (xs ++ ys) ≡ (member t xs || member t ys)
member-append t [] ys = refl
member-append t (x ∷ xs) ys = ground (arith, member-append t xs ys)

has_key-append :
    (k t : String) (g : Graph) → has_key k (g ++ (t, []) ∷ []) ≡ (has_key k g || (t == k))
has_key-append k t [] = ground arith
has_key-append k t ((n, ts) ∷ g) = ground (arith, has_key-append k t g)

has_key-add_targets :
    (k : String) (ts : List String) (g : Graph)
    → has_key k (add_targets ts g) ≡ (member k ts || has_key k g)
unfolding add_targets
has_key-add_targets k [] g = refl
has_key-add_targets k (t ∷ ts) g =
    has_key-add_targets k ts (set_default t [] g) ∙ ground (arith, has_key-append k t g)

targets-append :
    (m : String) (t : String) (g : Graph) → at_key_or [] m (g ++ (t, []) ∷ []) ≡ at_key_or [] m g
targets-append m t [] = ground arith
targets-append m t ((n, ts) ∷ g) = ground (arith, targets-append m t g)

targets-add_targets :
    (m : String) (ts : List String) (g : Graph)
    → at_key_or [] m (add_targets ts g) ≡ at_key_or [] m g
unfolding add_targets
targets-add_targets m [] g = refl
targets-add_targets m (t ∷ ts) g =
    targets-add_targets m ts (set_default t [] g) ∙ ground (arith, targets-append m t g)

member-all_targets :
    (n t : String) (g : Graph)
    → member t (at_key_or [] n g) ≡ true
    → member t (all_targets g) ≡ true
unfolding all_targets
member-all_targets n t [] h = absurd (ground arith)
member-all_targets n t ((m, ts) ∷ g) h =
    member-append t ts (all_targets g) ∙ ground (arith, h, member-all_targets n t g)

add_targets-Closed : (g : Graph) → Closed (add_targets (all_targets g) g)
add_targets-Closed g n t h =
    has_key-add_targets t (all_targets g) g
    ∙ ap (λ b. b || has_key t g)
        (member-all_targets n t g
          (ap (member t) (sym (targets-add_targets n (all_targets g) g)) ∙ h))

graph_of-Closed : (edges : Graph) → Closed (graph_of edges)
unfolding graph_of
graph_of-Closed edges = add_targets-Closed _

-- The nodes without an index.
abbrev unseen : Graph → Search → ℕ
unseen g s = countb (λ e. not (has_key e.0 s.index_of)) g

has_key-put_key :
    {V : Type 0} (k n : String) (v : V) (d : List (String × V))
    → has_key k (put_key n v d) ≡ ((n == k) || has_key k d)
has_key-put_key k n v [] = ground arith
has_key-put_key k n v ((m, w) ∷ d) = ground (arith, has_key-put_key k n v d)

unseen-le :
    (g : Graph) (n : String) (v : ℕ) (d : List (String × ℕ))
    → countb (λ e. not (has_key e.0 (put_key n v d))) g ≤ countb (λ e. not (has_key e.0 d)) g
unseen-le [] n v d = ground arith
unseen-le ((m, ts) ∷ g) n v d = ground (arith, has_key-put_key m n v d, unseen-le g n v d)

unseen-seen :
    (g : Graph) (n : String) (v : ℕ) (d : List (String × ℕ))
    → has_key n g ≡ true
    → has_key n d ≡ false
    → suc (countb (λ e. not (has_key e.0 (put_key n v d))) g) ≤ countb (λ e. not (has_key e.0 d)) g
unseen-seen [] n v d known new = absurd (ground arith)
unseen-seen ((m, ts) ∷ g) n v d known new =
    ground (arith, known, new, has_key-put_key m n v d, unseen-le g n v d, unseen-seen g n v d)

abbrev positive : List (String × ℕ) → Bool
positive [] = true
positive ((n, i) ∷ rest) = ltb 0 i && positive rest

-- What is left to do fits the fuel: each node without an index is pushed and popped, the node on
-- top that was not entered yet is popped, and so is each node below.
EnoughTop : ℕ → Graph → Search → String × ℕ → List (String × ℕ) → Type 0
EnoughTop fuel g s (n, zero) below =
    (has_key n g ≡ true)
    × ((has_key n s.index_of ≡ false) × (2 * unseen g s + length below ≤ suc fuel))
EnoughTop fuel g s (n, suc i) below = 2 * unseen g s + suc (length below) ≤ fuel

Enough : ℕ → Graph → Search → List (String × ℕ) → Type 0
Enough fuel g s [] = Unit {0}
Enough fuel g s (top ∷ below) = EnoughTop fuel g s top below × (positive below ≡ true)

relax-frame :
    (n child : String) (s : Search)
    → ((relax n child s).index_of ≡ s.index_of) × ((relax n child s).work ≡ s.work)
unfolding relax lower
relax-frame n child s = (ground arith, ground arith)

-- A scan either finds no child without an index, or puts one on the work.
Scanned : Graph → String → List (String × ℕ) → Search → Bool × Search → Type 0
Scanned g n below s (false, after) = after.index_of ≡ s.index_of
Scanned g n below s (true, after) =
    (child : String) × (i : ℕ) × (after.work ≡ (child, 0) ∷ (n, suc i) ∷ below)
    × (has_key child g ≡ true)
    × (has_key child after.index_of ≡ false)
    × (after.index_of ≡ s.index_of)

Scanned-same :
    (g : Graph) (n : String) (below : List (String × ℕ)) (s s' : Search) (p : Bool × Search)
    → s'.index_of ≡ s.index_of
    → Scanned g n below s' p
    → Scanned g n below s p
unfolding Scanned
Scanned-same g n below s s' (false, after) same h = h ∙ same
Scanned-same g n below s s' (true, after) same (child, i, work, known, fresh, kept) =
    (child, i, work, known, fresh, kept ∙ same)

scan_children-Scanned :
    (g : Graph) (n : String) (below : List (String × ℕ)) (i : ℕ) (cs : List String) (s : Search)
    → ((t : String) → member t cs ≡ true → has_key t g ≡ true)
    → Scanned g n below s (scan_children n below i cs s)
unfolding scan_children Scanned
scan_children-Scanned g n below i [] s known = refl
scan_children-Scanned g n below i (child ∷ cs) s known =
    elim (Bool-cases (has_key child s.index_of)) [
      | inl seen ↦ rw seen (
          Scanned-same g n below s (relax n child s) _ (relax-frame n child s).0 (
            scan_children-Scanned g n below (suc i) cs (relax n child s)
              (λ t h. known t (ground (arith, h)))))
      | inr fresh ↦ rw fresh (child, i, refl, known child (ground arith), fresh, refl)
    ]

leave-frame :
    (g : Graph) (n : String) (below : List (String × ℕ)) (s : Search)
    → ((leave g n below s).index_of ≡ s.index_of) × ((leave g n below s).work ≡ below)
unfolding leave close_component lower
leave-frame g n [] s = (ground arith, ground arith)
leave-frame g n ((m, j) ∷ below) s = (ground arith, ground arith)

unseen-same : (g : Graph) (s s' : Search) → s'.index_of ≡ s.index_of → unseen g s' ≡ unseen g s
unseen-same g s s' same = ap (λ d. countb (λ e. not (has_key e.0 d)) g) same

Enough-below :
    (fuel : ℕ) (g : Graph) (below : List (String × ℕ)) (s : Search)
    → 2 * unseen g s + length below ≤ fuel
    → positive below ≡ true
    → Enough fuel g s below
unfolding Enough EnoughTop
Enough-below fuel g [] s h up = tt
Enough-below fuel g ((m, zero) ∷ below) s h up = absurd (ground arith)
Enough-below fuel g ((m, suc j) ∷ below) s h up = (ground arith, ground arith)

Scanned-Enough :
    (fuel : ℕ) (g : Graph) (n : String) (below : List (String × ℕ)) (s : Search) (p : Bool × Search)
    → 2 * unseen g s + length below ≤ fuel
    → positive below ≡ true
    → Scanned g n below s p
    → Enough fuel g
        (if p.0 then p.1 else leave g n below p.1)
        (if p.0 then p.1 else leave g n below p.1).work
unfolding Scanned Enough EnoughTop
Scanned-Enough fuel g n below s (true, after) h up (child, i, work, known, fresh, same) =
    subst (Enough fuel g after) (sym work)
      ((known, (fresh, rw (unseen-same g s after same) (ground (arith, h)))), ground (arith, up))
Scanned-Enough fuel g n below s (false, after) h up same =
    let (kept, work) = leave-frame g n below after in
    subst (Enough fuel g (leave g n below after)) (sym work) (
      Enough-below fuel g below (leave g n below after)
        (rw (unseen-same g s (leave g n below after) (kept ∙ same)) h) up)

member-drop_first :
    (t : String) (i : ℕ) (xs : List String) → member t (drop_first i xs) ≡ true → member t xs ≡ true
unfolding drop_first
member-drop_first t zero xs h = h
member-drop_first t (suc i) [] h = h
member-drop_first t (suc i) (x ∷ xs) h = ground (arith, h, member-drop_first t i xs)

turn-Enough :
    (fuel : ℕ) (g : Graph) (n : String) (i : ℕ) (below : List (String × ℕ)) (s : Search)
    → Closed g
    → Enough (suc fuel) g s ((n, i) ∷ below)
    → Enough fuel g (turn g (n, i) below s) (turn g (n, i) below s).work
unfolding turn enter Enough EnoughTop visit drop_first
turn-Enough fuel g n zero below s closed ((known, (new, h)), up) =
    Scanned-Enough fuel g n below (visit n s) _
      (ground (arith, h, unseen-seen g n s.counter s.index_of known new)) up
      (scan_children-Scanned g n below 0 (at_key_or [] n g) (visit n s) (closed n))
turn-Enough fuel g n (suc i) below s closed (h, up) =
    Scanned-Enough fuel g n below s _ (ground (arith, h)) up (
      scan_children-Scanned g n below (suc i) (drop_first (suc i) (at_key_or [] n g)) s
        (λ t h. closed n t (member-drop_first t (suc i) _ h)))

turns-Enough :
    (fuel : ℕ) (g : Graph) (s : Search) (w : List (String × ℕ))
    → s.work ≡ w
    → Closed g
    → Enough fuel g s w
    → (turns fuel g s).work ≡ []
unfolding turns Enough EnoughTop
turns-Enough zero g s [] at closed h = at
turns-Enough zero g s ((n, zero) ∷ below) at closed ((known, (new, h)), up) =
    absurd (ground (arith, h, unseen-seen g n 0 s.index_of known new))
turns-Enough zero g s ((n, suc i) ∷ below) at closed (h, up) = absurd (ground (arith, h))
turns-Enough (suc fuel) g s [] at closed h =
    subst
      (λ w.
        (elim w as (λ _. Search) [ [] ↦ s | top ∷ below ↦ turns fuel g (turn g top below s) ]).work
        ≡ [])
      (sym at) at
turns-Enough (suc fuel) g s ((n, i) ∷ below) at closed h =
    subst
      (λ w.
        (elim w as (λ _. Search) [ [] ↦ s | top ∷ below ↦ turns fuel g (turn g top below s) ]).work
        ≡ [])
      (sym at)
      (turns-Enough fuel g (turn g (n, i) below s) _ refl closed
        (turn-Enough fuel g n i below s closed h))

unseen-length : (g : Graph) (d : List (String × ℕ)) → countb (λ e. not (has_key e.0 d)) g ≤ length g
unseen-length [] d = ground arith
unseen-length (e ∷ g) d = ground (arith, unseen-length g d)

-- In the graph of any edges, the loop that starts at a node without an index, whatever the
-- search found before, has no work left after two turns for each node.
pub turns-finish :
    (edges : Graph) (root : String) (s : Search)
    → has_key root (graph_of edges) ≡ true
    → has_key root s.index_of ≡ false
    → (turns (fuel_of (graph_of edges)) (graph_of edges) (record s { work = (root, 0) ∷ [] })).work
      ≡ []
unfolding Enough EnoughTop
turns-finish edges root s known new =
    turns-Enough (fuel_of (graph_of edges)) (graph_of edges) (record s { work = (root, 0) ∷ [] }) _
      refl (graph_of-Closed edges)
      ((known, (new, ground (arith, unseen-length (graph_of edges) s.index_of))), refl)
