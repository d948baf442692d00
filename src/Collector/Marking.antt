-- ===== src/Collector/Marking.antt =====
-- Marking the entries of replicas whose shares failed keeps the collector counted.
use concord_rcanopus.Base.{
  ℕ, suc, ◌+◌, ◌-◌, ◌%◌, ◌^◌, ◌≡◌, refl, sym, ◌∙◌, true, false, not, List, [], ◌∷◌, arith, ◌==◌,
  ne→==, and_true, or_false, refuted, ==→ne,
}
use concord_rcanopus.Collector.{Infos, Collector, mark, mark_bad}
use concord_rcanopus.Collector.Entries.{
  count, is_member, no_repeats, is_usable, is_absent, is_unknown, is_map, mark_counted,
  mark_present, mark_map, mark_others,
}
use concord_rcanopus.Collector.Shares.{all_pass, both_true}

wrap_less : (n c d : ℕ) → n ≡ c % 2 ^ 16 → suc d ≡ c → (n + (2 ^ 16 - 1)) % 2 ^ 16 ≡ d % 2 ^ 16
wrap_less n c d e less = omega arith

-- The entries of a collector: one for each id, with a message, and their number counted.
pub record IsCounted {Part Full : Type 0} (k : Collector Part Full) : Type 0 where
  pub ids : is_map k.replicas_info ≡ true
  pub present : count is_absent k.replicas_info ≡ 0
  pub unknowns : k.number_of_unknown_signatures ≡ count is_usable k.replicas_info % 2 ^ 16

pass_others :
    {Part : Type 0} (infos : Infos Part) (r : ℕ) (bad : List ℕ)
    → is_unknown infos r ≡ true
    → is_member r bad ≡ false
    → all_pass (is_unknown infos) bad ≡ true
    → all_pass (is_unknown (mark r infos)) bad ≡ true
pass_others infos r [] h fresh pass = refl
pass_others infos r (x ∷ bad) h fresh pass =
    let (here, later) = and_true (is_unknown infos x) (all_pass (is_unknown infos) bad) pass in
    let (other, fresh') = or_false (r == x) (is_member r bad) fresh in
    both_true (mark_others infos r x h (ne→== x r (λ same. ==→ne r x other (sym same))) ∙ here)
      (pass_others infos r bad h fresh' later)

-- Marking distinct replicas whose shares were unknown keeps the count.
pub mark_bad-IsCounted :
    {Part Full : Type 0} (bad : List ℕ) (k : Collector Part Full)
    → IsCounted k
    → all_pass (is_unknown k.replicas_info) bad ≡ true
    → no_repeats bad ≡ true
    → IsCounted (mark_bad bad k)
unfolding mark_bad
mark_bad-IsCounted [] k counted pass differ = counted
mark_bad-IsCounted (r ∷ bad) k counted pass differ =
    let (here, later) =
      and_true (is_unknown k.replicas_info r) (all_pass (is_unknown k.replicas_info) bad) pass in
    let (fresh, differ') = and_true (not (is_member r bad)) (no_repeats bad) differ in
    mark_bad-IsCounted bad _
      (record {
        ids = mark_map k.replicas_info r here counted.ids;
        present = mark_present k.replicas_info r here counted.present;
        unknowns =
            wrap_less k.number_of_unknown_signatures (count is_usable k.replicas_info) _
              counted.unknowns (mark_counted k.replicas_info r here);
      })
      (pass_others k.replicas_info r bad here (refuted (is_member r bad) fresh) later) differ'

-- The other fields stay.
pub mark_bad_rest :
    {Part Full : Type 0} (bad : List ℕ) (k : Collector Part Full)
    → mark_bad bad k ≡ record k {
      replicas_info = (mark_bad bad k).replicas_info;
      number_of_unknown_signatures = (mark_bad bad k).number_of_unknown_signatures;
    }
unfolding mark_bad
mark_bad_rest [] k = refl
mark_bad_rest (r ∷ bad) k = mark_bad_rest bad _
