-- ===== src/Rbtree/Tests.antt =====
-- Runs of the tree over numbers: nodes at even addresses, node `2 * k` with the key `k`.
use dsa_c.Prelude.{
  ℕ, zero, suc, ◌*◌, ◌%◌, ◌≡◌, refl, inl, inr, true, false, ◌&&◌, List, [], ◌∷◌, ◌++◌, arith, ltb,
  ◌==◌, if◌then◌else◌, Bool-cases,
}
use dsa_c.Run.{Run, ok, fault, assertion, ◌>>=◌, Returns}
use dsa_c.Rbtree.{
  Dir, Memory, left, right, same_dir, child_dir, contains_key, contains_loop, node_get_parent_ptr,
  node_init, node_is_black, node_is_red, node_set_color_to_black, node_set_color_to_color_of_other,
  node_set_color_to_red, node_set_parent_ptr, node_transplant, rotate_dir, search_loop, search_node,
  set_child, set_key, set_root, set_word,
}
use dsa_c.Rbtree.Insert.{
  descend, from_uncle, insert_fixup, insert_fixup_loop, insert_node, insert_recolor, insert_rotate,
  is_null_or_black, link,
}
use dsa_c.Rbtree.Delete.{
  after_case_3, choose_case, case_3, case_4, case_5, case_6, delete_fixup, delete_inner,
  delete_leaf, delete_node, delete_single, unlink, is_red_node, leftmost, mend,
  replace_with_successor, take_place,
}
use dsa_c.Rbtree.Shape.{Tree, leaf, node, branch, empty, full}
use dsa_c.Rbtree.Context.{top, plug, Represents}
use dsa_c.Rbtree.Rotation.{rotate_dir_lem}
use dsa_c.Rbtree.Balance.{IsRedBlack}
use dsa_c.Rbtree.Order.{listing}
use dsa_c.Rbtree.Keys.{IsStrictOrder, place}
use dsa_c.Rbtree.Search.{has_key, has_node}
use dsa_c.Rbtree.Termination.{searches_terminate}
use dsa_c.Rbtree.Insertion.{IsValid, insert_node_lem}
use dsa_c.Rbtree.Remove.{take_out}
use dsa_c.Rbtree.Deletion.{delete_node_lem}
use dsa_c.Rbtree.Undo.{delete_node-insert_node}

abbrev blank : Memory ℕ
blank = record {
  root_ptr = 0;
  parent_ptr_with_color_bit = λ a. 0;
  child_ptrs = λ a d. 0;
  key = λ a. 0;
}

unfoldable insert_all : Memory ℕ → List ℕ → Run (Memory ℕ)
unfolding set_root set_word set_child set_key node_set_color_to_red node_set_color_to_black
    node_set_parent_ptr node_init node_get_parent_ptr node_is_black node_is_red child_dir rotate_dir
    contains_loop contains_key is_null_or_black insert_rotate insert_recolor from_uncle
    insert_fixup_loop insert_fixup descend link insert_node
insert_all m [] = ok m
insert_all m (k ∷ ks) = do
  m₁ ← node_init m (2 * k) k
  m₂ ← insert_node ltb false 9 m₁ (2 * k)
  insert_all m₂ ks

unfoldable delete_all : Memory ℕ → List ℕ → Run (Memory ℕ)
unfolding set_root set_word set_child node_set_color_to_red node_set_color_to_black
    node_set_color_to_color_of_other node_set_parent_ptr node_get_parent_ptr node_is_black
    node_is_red child_dir rotate_dir node_transplant search_loop search_node is_red_node case_3
    case_4 case_5 case_6 delete_fixup delete_leaf delete_single leftmost take_place
    replace_with_successor mend after_case_3 choose_case delete_inner unlink delete_node
delete_all m [] = ok m
delete_all m (k ∷ ks) = do p ← search_node ltb 9 m k; (_, m₁) ← delete_node 9 m p; delete_all m₁ ks

-- key and colour bit of each node, from the left, with the depth that the fuel allows
abbrev colors : ℕ → Memory ℕ → ℕ → List (ℕ × ℕ)
colors zero m p = []
colors (suc fuel) m p =
    if p == 0
    then []
    else (colors fuel m (m.child_ptrs p left)
        ++ (m.key p, m.parent_ptr_with_color_bit p % 2) ∷ colors fuel m (m.child_ptrs p right))

abbrev view : Memory ℕ → ℕ × List (ℕ × ℕ)
view m = (m.key m.root_ptr, colors 6 m m.root_ptr)

ascending :
    (insert_all blank (1 ∷ 2 ∷ 3 ∷ 4 ∷ 5 ∷ []) >>= λ m. ok (view m))
    ≡ ok (2, (1, 1) ∷ (2, 0) ∷ (3, 0) ∷ (4, 1) ∷ (5, 0) ∷ [])
unfolding insert_all
ascending = refl

deleted :
    (insert_all blank (5 ∷ 2 ∷ 8 ∷ 3 ∷ 4 ∷ 1 ∷ []) >>= λ m.
    delete_all m (5 ∷ 2 ∷ 1 ∷ []) >>= λ m'. ok (view m'))
    ≡ ok (4, (3, 1) ∷ (4, 1) ∷ (8, 1) ∷ [])
unfolding insert_all delete_all
deleted = refl

twice : insert_all blank (1 ∷ 1 ∷ []) ≡ fault assertion
unfolding insert_all
twice = refl

-- two nodes: the key 5 at the address 2, and below it the key 2 at the address 4
abbrev two_nodes : Memory ℕ
two_nodes = record {
  root_ptr = 2;
  parent_ptr_with_color_bit = λ a. if a == 2 then 1 else if a == 4 then 2 else 0;
  child_ptrs = λ a d. if (a == 2) && same_dir d left then 4 else 0;
  key = λ a. if a == 2 then 5 else if a == 4 then 2 else 3;
}

abbrev small : Tree ℕ
small = node leaf 4 false 2 leaf

abbrev tree : Tree ℕ
tree = node small 2 true 5 leaf

ltb-IsStrictOrder : IsStrictOrder ltb
ltb-IsStrictOrder = record {
  asymmetric = λ a b h. ground arith;
  comparable =
      λ a b c h. elim (Bool-cases (ltb a b)) [ inl up ↦ inl up | inr down ↦ inr (ground arith) ];
}

two_nodes-Represents : Represents two_nodes tree
two_nodes-Represents = record {
  rooted = refl;
  holds =
      full {a = 2}
        (record {
          address = record {
            not_null = λ e. absurd (omega (arith, e));
            even = refl;
            fits = omega arith;
          };
          word = refl;
          to_near = refl;
          to_far = refl;
          keyed = refl;
        })
        (full {a = 4}
          (record {
            address = record {
              not_null = λ e. absurd (omega (arith, e));
              even = refl;
              fits = omega arith;
            };
            word = refl;
            to_near = refl;
            to_far = refl;
            keyed = refl;
          })
          empty empty refl refl (λ x i. refl))
        empty refl refl (λ x i. refl);
}

tree-IsRedBlack : IsRedBlack tree
tree-IsRedBlack = ((tt, tt, refl, refl), tt, refl, refl)

two_nodes-IsValid : IsValid ltb two_nodes tree
two_nodes-IsValid = record {
  represents = two_nodes-Represents;
  balanced = tree-IsRedBlack;
  sorted = ((refl, tt), (tt, tt));
}

no_3 : has_key ltb 3 (listing tree) ≡ false
unfolding has_key
no_3 = refl

insert_node_lem_example :
    Returns
      (λ m'.
        (t' : Tree ℕ) × IsValid ltb m' t'
        × (listing t' ≡ place ltb 6 (two_nodes.key 6) (listing tree)))
      (insert_node ltb false 4 two_nodes 6)
insert_node_lem_example =
    insert_node_lem ltb ltb-IsStrictOrder false 4 two_nodes 6 tree two_nodes-IsValid
      (record { not_null = λ e. absurd (omega (arith, e)); even = refl; fits = omega arith }) refl
      (omega arith) (inr no_3)

rotate_dir_lem_example :
    Returns
      (λ (root_ptr, m').
        (root_ptr ≡ 4)
        × Represents m' (plug top (branch right (branch right leaf 2 true 5 leaf) 4 false 2 leaf)))
      (rotate_dir two_nodes 2 right)
rotate_dir_lem_example =
    rotate_dir_lem two_nodes top right leaf 2 true 5 leaf 4 false 2 leaf two_nodes-Represents

searches_terminate_example :
    (contains_key ltb (2 * 3) two_nodes 2 ≡ ok (has_key ltb 2 (listing tree)))
    × ((p : ℕ) × (search_node ltb (2 * 3) two_nodes 2 ≡ ok p)
        × (if has_key ltb 2 (listing tree) then has_node ltb 2 p (listing tree) ≡ true else p ≡ 0))
searches_terminate_example =
    searches_terminate ltb ltb-IsStrictOrder 3 two_nodes 2 tree two_nodes-IsValid (omega arith)

delete_node_lem_example :
    Returns
      (λ (p, m').
        (p ≡ 2)
        × ((d : Dir) → m'.child_ptrs 2 d ≡ 0)
        × (node_get_parent_ptr m' 2 ≡ ok 0)
        × (t' : Tree ℕ) × IsValid ltb m' t'
        × (listing t' ≡ take_out 2 (listing tree)))
      (delete_node 2 two_nodes 2)
delete_node_lem_example =
    delete_node_lem ltb 2 two_nodes 2 tree two_nodes-IsValid refl (omega arith)

delete_node-insert_node_example :
    Returns
      (λ (p, m'). (t' : Tree ℕ) × IsValid ltb m' t' × (listing t' ≡ listing tree))
      (insert_node ltb false 4 two_nodes 6 >>= λ m₁. delete_node 4 m₁ 6)
delete_node-insert_node_example =
    delete_node-insert_node ltb ltb-IsStrictOrder false 4 two_nodes 6 tree two_nodes-IsValid
      (record { not_null = λ e. absurd (omega (arith, e)); even = refl; fits = omega arith }) refl
      (omega arith) (inr no_3)
