-- ===== src/Overlay/Tests.antt =====
-- Runs of the overlay topology (src/logic/OverlayTopology.ts), and the theorems at concrete inputs.
use Prim.Native.Nat.{max}
use network_old.Base.{
  ◌≤◌, ◌≡◌, refl, true, false, [], ◌∷◌, String, string_eq, ok, some, arith, ◌==◌, add, delete,
  add_all, of_list, lookup, insert, remove, update, has_key,
}
use network_old.Overlay.{
  OverlayTopology, Nodes, Choices, neighbors_in, update_nodes, update_node, add_link, delete_link,
  add_links, delete_links, known_neighbors, leave, num_of_missing_neighbors, reduce_neighbors,
  candidates, add_neighbors, relink, exchange, reconnect_once, reconnect, disconnect_neighbors,
  has_self_neighbor, instructions_for, improve, form_instructions,
}
use network_old.Overlay.Links.{linked}
use network_old.Overlay.Updates.{
  IsValid, update_nodes-IsValid, linked-update_nodes, leave-linked, leave-IsValid,
}
use network_old.Overlay.Instructions.{IsChoice, form_instructions_ok}
use network_old.Overlay.Sizes.{degree}
use network_old.Overlay.Degrees.{improve_bounded}
use network_old.Overlay.Rounds.{reconnect_enough}
use network_old.Overlay.Announcements.{improve_announced}
use network_old.Overlay.Randomness.{default_choices, default_choices-IsChoice}

program : Unit {0}
unfolding neighbors_in update_nodes update_node add_link delete_link add_links delete_links
    known_neighbors leave num_of_missing_neighbors reduce_neighbors candidates add_neighbors relink
    exchange reconnect_once reconnect disconnect_neighbors has_self_neighbor instructions_for
    improve form_instructions add delete add_all of_list lookup insert remove update has_key
    default_choices linked degree
program = tt

-- Random numbers that leave each array in its order, and pick the first element.
abbrev first : Choices String
first = default_choices (λ k i. i) (λ k. 0)

abbrev empty : Nodes String
empty = []

-- Three nodes in a row, b in the middle.
abbrev row : Nodes String
row = update_nodes "b" ("a" ∷ "c" ∷ []) (update_nodes "c" [] (update_nodes "a" [] empty))

row_nodes : row ≡ ("a", "b" ∷ []) ∷ ("c", "b" ∷ []) ∷ ("b", "a" ∷ "c" ∷ []) ∷ []
unfolding program
row_nodes = refl

-- The same with a node that has no neighbours yet, where each node may have two.
abbrev with_newcomer : OverlayTopology String
with_newcomer = record { max_neighbors_per_node = 2; nodes = update_nodes "d" [] row }

-- The newcomer gets the two ends of the row.
instructions :
    form_instructions first with_newcomer "d" false
    ≡ ok (
      update_node with_newcomer "d" ("a" ∷ "c" ∷ []),
      ("d", "a" ∷ "c" ∷ []) ∷ ("a", "b" ∷ "d" ∷ []) ∷ ("c", "b" ∷ "d" ∷ []) ∷ [],
    )
unfolding program
instructions = refl

-- A triangle of full nodes gives up a link.
abbrev triangle : OverlayTopology String
triangle = record {
  max_neighbors_per_node = 2;
  nodes = update_nodes "d" [] (update_nodes "c" ("a" ∷ "b" ∷ []) row);
}

opened :
    form_instructions first triangle "d" false
    ≡ ok (
      record {
        max_neighbors_per_node = 2;
        nodes =
            ("a", "c" ∷ "d" ∷ [])
            ∷ ("c", "a" ∷ "b" ∷ [])
            ∷ ("b", "c" ∷ "d" ∷ [])
            ∷ ("d", "a" ∷ "b" ∷ [])
            ∷ [];
      },
      ("d", "a" ∷ "b" ∷ []) ∷ ("a", "c" ∷ "d" ∷ []) ∷ ("b", "c" ∷ "d" ∷ []) ∷ [],
    )
unfolding program
opened = refl

empty-IsValid : IsValid empty
unfolding program
empty-IsValid = record {
  symmetric = λ a b. refl;
  irreflexive = λ a. refl;
  distinct = λ a. tt;
  keyed = tt;
}

row-IsValid : IsValid row
row-IsValid =
    update_nodes-IsValid "b" ("a" ∷ "c" ∷ []) _
      (update_nodes-IsValid "c" [] _ (update_nodes-IsValid "a" [] empty empty-IsValid))

triangle-IsValid : IsValid triangle.nodes
triangle-IsValid =
    update_nodes-IsValid "d" [] _ (update_nodes-IsValid "c" ("a" ∷ "b" ∷ []) row row-IsValid)

first-IsChoice : IsChoice first
first-IsChoice = default_choices-IsChoice (λ k i. i) (λ k. 0)

known : has_key "d" triangle.nodes ≡ true
unfolding program
known = refl

linked-update_nodes_example : linked (update_nodes "b" ("a" ∷ "x" ∷ []) row) "c" "b" ≡ false
unfolding program
linked-update_nodes_example = linked-update_nodes "b" ("a" ∷ "x" ∷ []) row "c" "b"

update_nodes-IsValid_example : IsValid (update_nodes "c" ("a" ∷ "b" ∷ []) row)
update_nodes-IsValid_example = update_nodes-IsValid "c" ("a" ∷ "b" ∷ []) row row-IsValid

abbrev row_topology : OverlayTopology String
row_topology = record { max_neighbors_per_node = 2; nodes = row }

leave-linked_example :
    (linked (leave row_topology "b").0.nodes "a" "b" ≡ false)
    × (has_key "a" (leave row_topology "b").0.nodes ≡ true)
    × ((leave row_topology "b").1 ≡ neighbors_in row "b")
unfolding program
leave-linked_example = leave-linked row_topology "b" row-IsValid "a" "b"

leave-IsValid_example : IsValid (leave row_topology "b").0.nodes
leave-IsValid_example = leave-IsValid row_topology "b" row-IsValid

form_instructions_ok_example :
    (form_instructions first triangle "d" false
      ≡ ok (
        (improve first triangle "d" false).0,
        instructions_for
            (improve first triangle "d" false).0.nodes
            (improve first triangle "d" false).1,
      ))
    × IsValid (improve first triangle "d" false).0.nodes
    × (has_key "d" (improve first triangle "d" false).0.nodes ≡ true)
form_instructions_ok_example =
    form_instructions_ok first triangle "d" false first-IsChoice triangle-IsValid known

improve_bounded_example :
    (degree (improve first triangle "d" false).0.nodes "d" ≤ 2)
    × ((a : String)
        → ("d" == a) ≡ false
        → degree (improve first triangle "d" false).0.nodes a ≤ max (degree triangle.nodes a) 2)
improve_bounded_example =
    improve_bounded first triangle "d" false first-IsChoice triangle-IsValid known

reconnect_enough_example :
    reconnect 7 first "d" ("a" ∷ "b" ∷ "c" ∷ []) (triangle, [])
    ≡ reconnect 3 first "d" ("a" ∷ "b" ∷ "c" ∷ []) (triangle, [])
reconnect_enough_example =
    reconnect_enough 7 first "d" ("a" ∷ "b" ∷ "c" ∷ []) (triangle, []) (omega arith)

improve_announced_example :
    ((a b : String)
      → linked (improve first triangle "d" true).0.nodes a b ≡ true
      → linked triangle.nodes a b ≡ false
      → lookup a (
          instructions_for
            (improve first triangle "d" true).0.nodes
            (improve first triangle "d" true).1)
        ≡ some (neighbors_in (improve first triangle "d" true).0.nodes a))
    × (true ≡ true
        → lookup "d" (
            instructions_for
              (improve first triangle "d" true).0.nodes
              (improve first triangle "d" true).1)
          ≡ some (neighbors_in (improve first triangle "d" true).0.nodes "d"))
improve_announced_example =
    improve_announced first triangle "d" true first-IsChoice triangle-IsValid known
