-- ===== src/Sort/Tests.antt =====
-- A list of two words that gets a third one between them.
use operating_systems_cs.Prelude.{refl, arith, [], ◌∷◌, none, some, update}
use operating_systems_cs.Sort.{Nodes, Words, insert}
use operating_systems_cs.Sort.Insert.{IsList, Inserted, insert_lem}

-- The words `a` and `c`, at 1 and 3.
abbrev two_nodes : Nodes
two_nodes =
    update
      (update (λ x. record { word = []; next = none; prev = none }) 1
        (record { word = 97 ∷ []; next = some 3; prev = none }))
      3 (record { word = 99 ∷ []; next = none; prev = some 1 })

abbrev two_words : Words
two_words = record { head = some 1; tail = some 3; nodes = two_nodes }

two_words-IsList : IsList two_words (1 ∷ 3 ∷ [])
two_words-IsList = record {
  starts = refl;
  ends = refl;
  linked = ((refl, refl, (refl, refl, tt)));
  distinct = (((λ e. omega arith), tt), (tt, tt));
}

insert_lem_example : Inserted two_nodes (98 ∷ []) (1 ∷ 3 ∷ []) (insert 2 2 (98 ∷ []) two_words)
insert_lem_example =
    insert_lem 2 2 (98 ∷ []) two_words (1 ∷ 3 ∷ []) (omega arith) two_words-IsList
      ((λ e. omega arith), ((λ e. omega arith), tt))
