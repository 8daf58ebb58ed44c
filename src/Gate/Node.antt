-- ===== src/Gate/Node.antt =====
-- Decoded JSON bodies, with texts and keys as lists of code points. A float is its printed text. A
-- body is a tree: nothing in it is shared, so a dict is the list of its entries.
use zero_trace.Prelude.{
  ℕ, zero, suc, Bool, true, false, ◌&&◌, Option, none, some, List, [], ◌∷◌, ◌++◌, ◌==◌,
  if◌then◌else◌,
}

mutual
  pub data Node : Type 0 where
    null : Node
    boolean : Bool → Node
    number : List ℕ → Node
    text : List ℕ → Node
    array : Nodes → Node
    object : Entries → Node

  pub data Nodes : Type 0 where
    done : Nodes
    item : Node → Nodes → Nodes

  pub data Entries : Type 0 where
    end : Entries
    entry : List ℕ → Node → Entries → Entries

-- Equality of texts.
abbrev pub text_eq : List ℕ → List ℕ → Bool
text_eq [] [] = true
text_eq (x ∷ xs) (y ∷ ys) = (x == y) && text_eq xs ys
text_eq _ _ = false

abbrev pub nth : ℕ → Nodes → Option Node
nth i done = none
nth zero (item n ns) = some n
nth (suc i) (item n ns) = nth i ns

abbrev pub put_nth : ℕ → Node → Nodes → Nodes
put_nth i v done = done
put_nth zero v (item n ns) = item v ns
put_nth (suc i) v (item n ns) = item n (put_nth i v ns)

unfoldable pub value_of : List ℕ → Entries → Option Node
value_of k end = none
value_of k (entry j n es) = let rest = value_of k es in if text_eq j k then some n else rest

unfoldable pub put_key : List ℕ → Node → Entries → Entries
put_key k v end = end
put_key k v (entry j n es) =
    let rest = put_key k v es in if text_eq j k then entry j v es else entry j n rest

-- `_walk_strings` of redact.py: every text in the body, keys included.
unfoldable mutual
  pub walk_strings : Node → List (List ℕ)
  walk_strings (text s) = s ∷ []
  walk_strings (array ns) = walk_items ns
  walk_strings (object es) = walk_entries es
  walk_strings _ = []

  pub walk_items : Nodes → List (List ℕ)
  walk_items done = []
  walk_items (item n ns) = walk_strings n ++ walk_items ns

  pub walk_entries : Entries → List (List ℕ)
  walk_entries end = []
  walk_entries (entry k n es) = k ∷ (walk_strings n ++ walk_entries es)
