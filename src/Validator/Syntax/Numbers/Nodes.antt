-- ===== src/Validator/Syntax/Numbers/Nodes.antt =====
-- A numbering of the nodes of rust-validator/src/syntax/node.rs.
use marsh.Base.{ℕ, ◌≡◌, refl, ap, arith}
use marsh.Validator.Syntax.Node.{
  TestNode, TestNodes, true_node, false_node, atom_node, and_node, or_node, RegexNode, RegexNodes,
  empty_node, all_node, epsilon_node, test_node, union_node, concat_node, star_node, intersect_node,
  not_node, Numbering,
}
use marsh.Validator.Syntax.Numbers.Codes.{
  pair, pair-first, pair-second, code_list, code_option, code_action, code_pattern, code_atom,
  code_atom-injective, code_comparison, code_comparison-injective,
}

unfoldable mutual
  pub code_test : TestNode → ℕ
  code_test true_node = pair 0 0
  code_test false_node = pair 1 0
  code_test (atom_node c p) = pair 2 (pair (code_comparison c) (code_atom p))
  code_test (and_node ts) = pair 3 (code_tests ts)
  code_test (or_node ts) = pair 4 (code_tests ts)

  pub code_tests : TestNodes → ℕ
  code_tests TestNodes.nil = pair 0 0
  code_tests (TestNodes.cons t ts) = pair 1 (pair (code_test t) (code_tests ts))

mutual
  unfolding code_test

  pub code_test-injective : (t u : TestNode) → code_test t ≡ code_test u → t ≡ u
  code_test-injective true_node true_node h = refl
  code_test-injective false_node false_node h = refl
  code_test-injective (atom_node c p) (atom_node d q) h =
      let e =
        pair-second 2 (pair (code_comparison c) (code_atom p)) 2
          (pair (code_comparison d) (code_atom q)) h in
      cc (
        code_comparison-injective c d (pair-first _ _ _ _ e),
        code_atom-injective p q (pair-second _ _ _ _ e),
      )
  code_test-injective (and_node ts) (and_node us) h =
      ap and_node (code_tests-injective ts us (pair-second _ _ _ _ h))
  code_test-injective (or_node ts) (or_node us) h =
      ap or_node (code_tests-injective ts us (pair-second _ _ _ _ h))
  code_test-injective t u h = absurd (omega (arith, pair-first _ _ _ _ h))

  pub code_tests-injective : (ts us : TestNodes) → code_tests ts ≡ code_tests us → ts ≡ us
  code_tests-injective TestNodes.nil TestNodes.nil h = refl
  code_tests-injective (TestNodes.cons t ts) (TestNodes.cons u us) h =
      let e =
        pair-second 1 (pair (code_test t) (code_tests ts)) 1 (pair (code_test u) (code_tests us))
          h in
      cc (
        code_test-injective t u (pair-first _ _ _ _ e),
        code_tests-injective ts us (pair-second _ _ _ _ e),
      )
  code_tests-injective ts us h = absurd (omega (arith, pair-first _ _ _ _ h))

unfoldable mutual
  pub code_regex : RegexNode → ℕ
  code_regex empty_node = pair 0 0
  code_regex all_node = pair 1 0
  code_regex epsilon_node = pair 2 0
  code_regex (test_node t) = pair 3 (code_test t)
  code_regex (union_node rs) = pair 4 (code_regexes rs)
  code_regex (concat_node rs) = pair 5 (code_regexes rs)
  code_regex (star_node r) = pair 6 (code_regex r)
  code_regex (intersect_node rs) = pair 7 (code_regexes rs)
  code_regex (not_node r) = pair 8 (code_regex r)

  pub code_regexes : RegexNodes → ℕ
  code_regexes RegexNodes.nil = pair 0 0
  code_regexes (RegexNodes.cons r rs) = pair 1 (pair (code_regex r) (code_regexes rs))

mutual
  unfolding code_regex

  pub code_regex-injective : (r s : RegexNode) → code_regex r ≡ code_regex s → r ≡ s
  code_regex-injective empty_node empty_node h = refl
  code_regex-injective all_node all_node h = refl
  code_regex-injective epsilon_node epsilon_node h = refl
  code_regex-injective (test_node t) (test_node u) h =
      ap test_node (code_test-injective t u (pair-second _ _ _ _ h))
  code_regex-injective (union_node rs) (union_node ss) h =
      ap union_node (code_regexes-injective rs ss (pair-second _ _ _ _ h))
  code_regex-injective (concat_node rs) (concat_node ss) h =
      ap concat_node (code_regexes-injective rs ss (pair-second _ _ _ _ h))
  code_regex-injective (star_node r) (star_node s) h =
      ap star_node (code_regex-injective r s (pair-second _ _ _ _ h))
  code_regex-injective (intersect_node rs) (intersect_node ss) h =
      ap intersect_node (code_regexes-injective rs ss (pair-second _ _ _ _ h))
  code_regex-injective (not_node r) (not_node s) h =
      ap not_node (code_regex-injective r s (pair-second _ _ _ _ h))
  code_regex-injective r s h = absurd (omega (arith, pair-first _ _ _ _ h))

  pub code_regexes-injective : (rs ss : RegexNodes) → code_regexes rs ≡ code_regexes ss → rs ≡ ss
  code_regexes-injective RegexNodes.nil RegexNodes.nil h = refl
  code_regexes-injective (RegexNodes.cons r rs) (RegexNodes.cons s ss) h =
      let e =
        pair-second 1 (pair (code_regex r) (code_regexes rs)) 1
          (pair (code_regex s) (code_regexes ss)) h in
      cc (
        code_regex-injective r s (pair-first _ _ _ _ e),
        code_regexes-injective rs ss (pair-second _ _ _ _ e),
      )
  code_regexes-injective rs ss h = absurd (omega (arith, pair-first _ _ _ _ h))

unfoldable pub numbering : Numbering
unfolding pair code_list code_option code_action code_pattern code_atom code_comparison code_test
    code_regex
numbering = record {
  test_uid = code_test;
  regex_uid = code_regex;
  test_uid_injective = code_test-injective;
  regex_uid_injective = code_regex-injective;
}
