-- ===== src/Deadlock/Cycles.antt =====
-- find_cycles: the strongly connected components of two or more nodes and the self-loops, by
-- Tarjan's algorithm with its stack of calls written out. The head of `stack` and of `work` is
-- the end of the list in the source.
pub mod Termination
use tarmac.Prelude.{
  ℕ, zero, suc, ◌+◌, ◌*◌, String, Bool, true, false, not, ◌&&◌, ◌||◌, Option, none, some, List, [],
  ◌∷◌, ◌++◌, map, leb, ltb, eqb, length, if◌then◌else◌,
}
use tarmac.Prelude.Text.{◌==◌, member, sorted, sort_by, text_leb}
use tarmac.Prelude.Dict.{at_key, has_key, at_key_or, put_key, set_default}

abbrev pub Graph : Type 0
Graph = List (String × List String)

-- sorted(set(names))
unfoldable pub distinct : List String → List String
distinct [] = []
distinct (s ∷ ss) = let rest = distinct ss in if member s ss then rest else s ∷ rest

abbrev pub sorted_set : List String → List String
sorted_set ss = sorted (distinct ss)

node_leb : String × List String → String × List String → Bool
node_leb (m, _) (n, _) = text_leb m n

unfoldable pub add_targets : List String → Graph → Graph
add_targets [] g = g
add_targets (t ∷ ts) g = add_targets ts (set_default t [] g)

unfoldable pub all_targets : Graph → List String
all_targets [] = []
all_targets ((n, ts) ∷ rest) = ts ++ all_targets rest

-- Each node with its targets, the nodes in order, then the targets that are no nodes.
unfoldable pub graph_of : Graph → Graph
unfolding node_leb
graph_of edges =
    let g = map (λ entry. (entry.0, sorted_set entry.1)) (sort_by node_leb edges) in
    add_targets (all_targets g) g

pub record Search : Type 0 where
  pub index_of : List (String × ℕ)
  pub lowlink : List (String × ℕ)
  pub on_stack : List (String × Bool)
  pub stack : List String
  pub counter : ℕ
  pub work : List (String × ℕ)
  pub sccs : List (List String)

abbrev pub smaller : ℕ → ℕ → ℕ
smaller m n = if leb m n then m else n

abbrev pub low : String → Search → ℕ
low n s = at_key_or 0 n s.lowlink

abbrev pub index : String → Search → ℕ
index n s = at_key_or 0 n s.index_of

-- A node is seen for the first time.
unfoldable pub visit : String → Search → Search
visit n s = record s {
  index_of = put_key n s.counter s.index_of;
  lowlink = put_key n s.counter s.lowlink;
  counter = suc s.counter;
  stack = n ∷ s.stack;
  on_stack = put_key n true s.on_stack;
}

-- lowlink[node] = min(lowlink[node], value)
unfoldable pub lower : String → ℕ → Search → Search
lower n v s = record s { lowlink = put_key n (smaller (low n s) v) s.lowlink }

unfoldable pub relax : String → String → Search → Search
relax n child s = if at_key_or false child s.on_stack then lower n (index child s) s else s

-- The children of the node from the i-th on, up to one that has no index: whether there is one,
-- which is then next, and the search.
unfoldable pub scan_children : String → List (String × ℕ) → ℕ → List String → Search → Bool × Search
scan_children n below i [] s = (false, s)
scan_children n below i (child ∷ rest) s =
    let later = scan_children n below (suc i) rest (relax n child s) in
    if has_key child s.index_of
    then later
    else (true, record s { work = (child, 0) ∷ (n, suc i) ∷ below })

unfoldable pub drop_first : ℕ → List String → List String
drop_first zero xs = xs
drop_first (suc n) [] = []
drop_first (suc n) (x ∷ xs) = drop_first n xs

-- Popping the stack down to the node: the component, and what stays.
unfoldable pub pop_until : String → List String → List String × List String
pop_until n [] = ([], [])
pop_until n (m ∷ rest) =
    let (comp, left) = pop_until n rest in if m == n then (m ∷ [], rest) else (m ∷ comp, left)

unfoldable pub take_off : List String → List (String × Bool) → List (String × Bool)
take_off [] flags = flags
take_off (n ∷ ns) flags = take_off ns (put_key n false flags)

-- A component with its root popped, kept if it has two nodes or a self-loop.
unfoldable pub close_component : Graph → String → Search → Search
close_component g n s =
    let (comp, left) = pop_until n s.stack in
    record s {
      stack = left;
      on_stack = take_off comp s.on_stack;
      sccs =
          if leb 2 (length comp) || member n (at_key_or [] n g)
          then s.sccs ++ sorted comp ∷ []
          else s.sccs;
    }

-- The node has no child left: its component, if it is a root, and its parent's low link.
unfoldable pub leave : Graph → String → List (String × ℕ) → Search → Search
leave g n below s =
    let closed = if eqb (low n s) (index n s) then close_component g n s else s in
    let popped : Search = record closed { work = below } in
    elim below [ [] ↦ popped | parent ∷ _ ↦ lower parent.0 (low n popped) popped ]

-- A node with its first child next is seen for the first time.
unfoldable pub enter : ℕ → String → Search → Search
enter zero n s = visit n s
enter (suc i) n s = s

-- One turn of `while work`, with the top of the work and what is below it.
unfoldable pub turn : Graph → String × ℕ → List (String × ℕ) → Search → Search
turn g (n, i) below s =
    let entered = enter i n s in
    let (advanced, after) = scan_children n below i (drop_first i (at_key_or [] n g)) entered in
    if advanced then after else leave g n below after

-- `while work`, on fuel: a turn pushes a node that has no index yet, or pops one, so two turns
-- for each node are enough.
unfoldable pub turns : ℕ → Graph → Search → Search
turns zero g s = s
turns (suc n) g s = elim s.work [ [] ↦ s | top ∷ below ↦ turns n g (turn g top below s) ]

abbrev pub fuel_of : Graph → ℕ
fuel_of g = 2 * length g

unfoldable pub visit_roots : Graph → List String → Search → Search
visit_roots g [] s = s
visit_roots g (root ∷ roots) s = visit_roots g roots (
    if has_key root s.index_of then s else turns (fuel_of g) g (record s { work = (root, 0) ∷ [] }))

-- Lists of texts in order.
unfoldable pub texts_leb : List String → List String → Bool
texts_leb [] ys = true
texts_leb (x ∷ xs) [] = false
texts_leb (x ∷ xs) (y ∷ ys) = let rest = texts_leb xs ys in if x == y then rest else text_leb x y

unfoldable pub find_cycles : Graph → List (List String)
find_cycles edges =
    let g = graph_of edges in
    let found = visit_roots g (sorted (map (λ entry. entry.0) g)) (record {
      index_of = [];
      lowlink = [];
      on_stack = [];
      stack = [];
      counter = 0;
      work = [];
      sccs = [];
    }) in
    sort_by texts_leb found.sccs
