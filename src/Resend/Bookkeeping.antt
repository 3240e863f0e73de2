-- ===== src/Resend/Bookkeeping.antt =====
-- `ResendBookkeeper` in src/resend/ResendHandler.ts: the ongoing resends of each node.
use network_old.Base.{
  ℕ, ◌+◌, String, string_eq, ◌==◌, number_eq, List, [], ◌∷◌, Option, none, some, if◌then◌else◌,
  length, is_empty, add, delete, Dict, values, lookup, insert, remove,
}

-- A context is named by a number. No node, or an empty id, is filed under "null".
abbrev pub ResendBookkeeper : Type 0
ResendBookkeeper = Dict String (List ℕ)

abbrev pub bookkeeping_key : Option String → String
bookkeeping_key none = "null"
bookkeeping_key (some node) = if node == "" then "null" else node

abbrev pub contexts_or_none : Option (List ℕ) → List ℕ
contexts_or_none none = []
contexts_or_none (some contexts) = contexts

unfoldable pub add_context : Option String → ℕ → ResendBookkeeper → ResendBookkeeper
add_context node ctx b =
    insert (bookkeeping_key node) (add (contexts_or_none (lookup (bookkeeping_key node) b)) ctx) b

unfoldable pub get_contexts : Option String → ResendBookkeeper → List ℕ
get_contexts node b = contexts_or_none (lookup (bookkeeping_key node) b)

unfoldable pub pop_contexts : Option String → ResendBookkeeper → ResendBookkeeper × List ℕ
unfolding get_contexts
pop_contexts node b = (remove (bookkeeping_key node) b, get_contexts node b)

unfoldable pub delete_context : Option String → ℕ → ResendBookkeeper → ResendBookkeeper
delete_context node ctx b = elim (lookup (bookkeeping_key node) b) [
  | none ↦ b
  | some contexts ↦
      if is_empty (delete contexts ctx)
      then remove (bookkeeping_key node) b
      else insert (bookkeeping_key node) (delete contexts ctx) b
]

abbrev pub context_count : List (List ℕ) → ℕ
context_count [] = 0
context_count (contexts ∷ rest) = length contexts + context_count rest

unfoldable pub bookkeeper_size : ResendBookkeeper → ℕ
bookkeeper_size b = context_count (values b)
