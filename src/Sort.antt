-- ===== src/Sort.antt =====
-- project4/usfsort.c: the sorted, doubly linked list of words, and `strcmp` of project4/ulib.c. A string is
-- the list of its characters before the final NUL, and a pointer to a node is its address. The address that
-- `malloc` gives for a node is an argument; what `malloc` does when it fails is not modelled, nor are the
-- buffers of the words.
pub mod Segments
pub mod Between
pub mod Half
pub mod Link
pub mod Insert
pub mod Sorted
pub mod Tests
use operating_systems_cs.Prelude.{
  ℕ, zero, suc, Bool, true, false, List, [], ◌∷◌, ltb, ◌==◌, if◌then◌else◌, Option, none, some,
  update,
}

-- `strcmp`: the two characters whose difference it returns.
pub strcmp : List ℕ → List ℕ → ℕ × ℕ
strcmp [] [] = (0, 0)
strcmp [] (y ∷ ys) = (0, y)
strcmp (x ∷ xs) [] = (x, 0)
strcmp (x ∷ xs) (y ∷ ys) = if x == y then strcmp xs ys else (x, y)

pub record Node : Type 0 where
  pub word : List ℕ
  pub next : Option ℕ
  pub prev : Option ℕ

abbrev pub Nodes : Type 0
Nodes = ℕ → Node

pub record Words : Type 0 where
  pub head : Option ℕ
  pub tail : Option ℕ
  pub nodes : Nodes

-- What the loop of `insert` ends with: the word is there, or `curr`.
pub data Place : Type 0 where
  already : Place
  before_node : Option ℕ → Place

-- The loop of `insert`, with a bound on its rounds.
pub seek : ℕ → List ℕ → Option ℕ → Nodes → Place
unfolding strcmp
seek zero string curr nodes = before_node curr
seek (suc rounds) string none nodes = before_node none
seek (suc rounds) string (some c) nodes =
    let (a, b) = strcmp string (nodes c).word in
    let rest = seek rounds string (nodes c).next nodes in
    if a == b then already else if ltb a b then before_node (some c) else rest

abbrev pub create_node : ℕ → List ℕ → Nodes → Nodes
create_node temp val nodes = update nodes temp (record { word = val; next = none; prev = none })

abbrev pub set_next : ℕ → Option ℕ → Nodes → Nodes
set_next x p nodes = update nodes x (record (nodes x) { next = p })

abbrev pub set_prev : ℕ → Option ℕ → Nodes → Nodes
set_prev x p nodes = update nodes x (record (nodes x) { prev = p })

-- `p->next = q` for a pointer `p` that may be NULL, which is `none`.
abbrev pub next_of : Option ℕ → Option ℕ → Nodes → Option Nodes
next_of none q nodes = none
next_of (some x) q nodes = some (set_next x q nodes)

abbrev pub with_nodes : Option ℕ → Option ℕ → Option Nodes → Option Words
with_nodes h t none = none
with_nodes h t (some n) = some (record { head = h; tail = t; nodes = n })

-- The four cases of `insert`: the empty list, after the last node, before the first one, in between.
pub link : ℕ → Option ℕ → Words → Option Words
link temp curr list = elim list.head [
  | none ↦ some (record list { head = some temp; tail = some temp })
  | some h ↦ elim curr [
    | none ↦
        with_nodes list.head (some temp)
          (next_of list.tail (some temp) (set_prev temp list.tail list.nodes))
    | some c ↦
        if c == h
        then some (record list {
          head = some temp;
          nodes = set_prev h (some temp) (set_next temp (some h) list.nodes);
        })
        else (let n = set_next temp (some c) list.nodes in
            let linked = set_prev c (some temp) (set_prev temp (n c).prev n) in
            with_nodes list.head list.tail (next_of (linked temp).prev (some temp) linked))
  ]
]

pub insert : ℕ → ℕ → List ℕ → Words → Option Words
unfolding seek link
insert rounds temp string list = elim (seek rounds string list.head list.nodes) [
  | already ↦ some list
  | before_node curr ↦ link temp curr (record list { nodes = create_node temp string list.nodes })
]
