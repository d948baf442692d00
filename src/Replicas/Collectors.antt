-- ===== src/Replicas/Collectors.antt =====
-- ReplicasInfo::getCollectorsForPartialProofs: which replicas collect, and who knows it.
use native.Mathlib.Nat.{mod-lt, mod-eq_of_lt}
use native.Mathlib.Decide.{dec_lt, dec_le}
use concord_rcanopus.Base.{
  ℕ, zero, suc, ◌+◌, ◌*◌, ◌/◌, ◌%◌, ◌≤◌, ◌<◌, ◌≡◌, ◌≢◌, ◌⊎◌, inl, inr, refl, true, false, ◌||◌, [],
  ◌∷◌, arith, ◌==◌, le→leb, not_le→leb, ne→==, ==→eq, Bool-cases,
}
use concord_rcanopus.Replicas.{ReplicasInfo, primary_of_view, ignore_primary, get_collectors_for}

-- What the constructor asserts, with room for a replica beside the primary.
pub record IsConfigured (r : ReplicasInfo) : Type 0 where
  pub size : r.number_of_replicas ≡ 3 * r.f_val + 2 * r.c_val + 1
  pub more_than_one : 2 ≤ r.number_of_replicas

-- Where a number goes that is moved up past the primary, round the ring.
pub Moved : ℕ → ℕ → ℕ → ℕ → Type 0
Moved n p c d =
    ((c < p) × (d ≡ c))
    ⊎ (((p ≤ c) × (c + 1 < n) × (d ≡ c + 1))
        ⊎ (((c + 1 ≡ n) × (0 < p) × (d ≡ 0)) ⊎ ((c + 1 ≡ n) × (p ≡ 0) × (d ≡ 1))))

mod_self : (n : ℕ) → 1 ≤ n → n % n ≡ 0
mod_self n h = grind arith

round_end : (c n : ℕ) → c + 1 ≡ n → (c + 1) % n ≡ 0
round_end c n h = rw h (mod_self n (omega arith))

ignore_primary_last :
    (r : ReplicasInfo) (p c : ℕ)
    → 2 ≤ r.number_of_replicas
    → p ≤ c
    → c + 1 ≡ r.number_of_replicas
    → ((0 < p) × (ignore_primary r p c ≡ 0)) ⊎ ((p ≡ 0) × (ignore_primary r p c ≡ 1))
unfolding ignore_primary
ignore_primary_last r zero c some_peer reached last =
    inr (
      refl,
      rw (le→leb 0 c reached, round_end c r.number_of_replicas last) (mod-eq_of_lt some_peer),
    )
ignore_primary_last r (suc p) c some_peer reached last = inl (
  omega arith,
  rw
      (
        le→leb (suc p) c reached,
        round_end c r.number_of_replicas last,
        ne→== 0 (suc p) (omega arith),
      )
      refl,
)

pub ignore_primary-Moved :
    (r : ReplicasInfo) (p c : ℕ)
    → 2 ≤ r.number_of_replicas
    → c < r.number_of_replicas
    → Moved r.number_of_replicas p c (ignore_primary r p c)
unfolding ignore_primary Moved
ignore_primary-Moved r p c some_peer inside = elim (dec_le p c) [
  | no above ↦ inl (omega arith, rw (not_le→leb p c above) refl)
  | yes reached ↦ elim (dec_lt (c + 1) r.number_of_replicas) [
    | yes more ↦ inr (
        inl (
          reached,
          more,
          rw (le→leb p c reached, mod-eq_of_lt more, ne→== (c + 1) p (omega arith)) refl,
        ))
    | no last ↦ elim (ignore_primary_last r p c some_peer reached (omega arith)) [
      | inl (high, here) ↦ inr (inr (inl (omega arith, high, here)))
      | inr (low, here) ↦ inr (inr (inr (omega arith, low, here)))
    ]
  ]
]

-- Moved numbers are replicas other than the primary.
Moved-peer : (n p c d : ℕ) → 2 ≤ n → c < n → Moved n p c d → (d < n) × (d ≢ p)
unfolding Moved
Moved-peer n p c d some_peer inside m = elim m [
  | inl (h, e) ↦ (omega arith, omega arith)
  | inr (inl (h, k, e)) ↦ (omega arith, omega arith)
  | inr (inr (inl (h, k, e))) ↦ (omega arith, omega arith)
  | inr (inr (inr (h, k, e))) ↦ (omega arith, omega arith)
]

-- Two numbers half a ring apart stay apart, when an even ring has at least six places.
Moved-ne :
    (n p c half d e : ℕ)
    → ((n ≡ 2 * half) × (3 ≤ half)) ⊎ (n ≡ 2 * half + 1)
    → c < half
    → Moved n p c d
    → Moved n p (c + half) e
    → d ≢ e
unfolding Moved
Moved-ne n p c half d e ring inside m k same = ground arith

-- With a spare pair of replicas an even ring has at least six places, since `f` is odd.
half_ring :
    (n f c : ℕ)
    → n ≡ 3 * f + 2 * c + 1
    → 1 ≤ c
    → ((n ≡ 2 * (n / 2)) × (3 ≤ n / 2)) ⊎ (n ≡ 2 * (n / 2) + 1)
half_ring n f c e h = elim (dec_lt (n % 2) 1) [
  | yes even ↦ inl (omega arith, omega arith)
  | no odd ↦ inr (omega arith)
]

ne_zero : (c : ℕ) → (c == 0) ≡ false → 1 ≤ c
ne_zero zero h = absurd (cc h)
ne_zero (suc c) h = omega arith

half_pos : (n : ℕ) → 2 ≤ n → 0 < n / 2
half_pos n h = omega arith

below_half : (n half c : ℕ) → ((n ≡ 2 * half) × (3 ≤ half)) ⊎ (n ≡ 2 * half + 1) → c < half → c < n
below_half n half c ring h = ground arith

above_half :
    (n half c : ℕ) → ((n ≡ 2 * half) × (3 ≤ half)) ⊎ (n ≡ 2 * half + 1) → c < half → c + half < n
above_half n half c ring h = ground arith

one_collector :
    (r : ReplicasInfo) (ref_replica v seq : ℕ)
    → IsConfigured r
    → r.dynamic_collector_for_partial_proofs ≡ true
    → (r.c_val == 0) ≡ true
    → (d : ℕ) × (get_collectors_for r ref_replica v seq ≡ (d == ref_replica, d ∷ []))
      × (d < r.number_of_replicas)
      × (d ≢ primary_of_view r v)
unfolding get_collectors_for
one_collector r ref_replica v seq ok dynamic zero_c =
    let n = r.number_of_replicas in
    let p = primary_of_view r v in
    let below = mod-lt seq {m = n} (omega (arith, ok.more_than_one)) in
    let (inside, other) =
      Moved-peer n p (seq % n) (ignore_primary r p (seq % n)) ok.more_than_one below
        (ignore_primary-Moved r p (seq % n) ok.more_than_one below) in
    (ignore_primary r p (seq % n), rw (dynamic, zero_c) refl, inside, other)

two_collectors :
    (r : ReplicasInfo) (ref_replica v seq : ℕ)
    → IsConfigured r
    → r.dynamic_collector_for_partial_proofs ≡ true
    → (r.c_val == 0) ≡ false
    → (d : ℕ) × ((e : ℕ) × (get_collectors_for r ref_replica v seq
          ≡ ((d == ref_replica) || (e == ref_replica), d ∷ e ∷ []))
        × (d ≢ e)
        × (d < r.number_of_replicas)
        × (d ≢ primary_of_view r v)
        × (e < r.number_of_replicas)
        × (e ≢ primary_of_view r v))
unfolding get_collectors_for
two_collectors r ref_replica v seq ok dynamic spare =
    let n = r.number_of_replicas in
    let p = primary_of_view r v in
    let half = n / 2 in
    let ring = half_ring n r.f_val r.c_val ok.size (ne_zero r.c_val spare) in
    let some_half = half_pos n ok.more_than_one in
    let below = mod-lt seq {m = half} some_half in
    let c = seq % half in
    let first = ignore_primary-Moved r p c ok.more_than_one (below_half n half c ring below) in
    let second =
      ignore_primary-Moved r p (c + half) ok.more_than_one (above_half n half c ring below) in
    let (in1, peer1) =
      Moved-peer n p c (ignore_primary r p c) ok.more_than_one (below_half n half c ring below)
        first in
    let (in2, peer2) =
      Moved-peer n p (c + half) (ignore_primary r p (c + half)) ok.more_than_one
        (above_half n half c ring below) second in
    (
      ignore_primary r p c,
      (
        ignore_primary r p (c + half),
        rw (dynamic, spare) refl,
        Moved-ne n p c half (ignore_primary r p c) (ignore_primary r p (c + half)) ring below first
            second,
        in1,
        peer1,
        in2,
        peer2,
      ),
    )

-- In a correctly sized group of more than one replica, the dynamic collectors of a sequence number
-- are one replica when `c` is 0 and two different ones when it is not; each is a replica of the
-- group other than the primary of the view; and the returned flag is true exactly when the
-- reference replica is among them.
pub get_collectors_for-lem :
    (r : ReplicasInfo) (ref_replica v seq : ℕ)
    → IsConfigured r
    → r.dynamic_collector_for_partial_proofs ≡ true
    → ((r.c_val ≡ 0)
        × ((d : ℕ) × (get_collectors_for r ref_replica v seq ≡ (d == ref_replica, d ∷ []))
            × (d < r.number_of_replicas)
            × (d ≢ primary_of_view r v)))
      ⊎ ((1 ≤ r.c_val)
          × ((d : ℕ) × ((e : ℕ) × (get_collectors_for r ref_replica v seq
                  ≡ ((d == ref_replica) || (e == ref_replica), d ∷ e ∷ []))
                × (d ≢ e)
                × (d < r.number_of_replicas)
                × (d ≢ primary_of_view r v)
                × (e < r.number_of_replicas)
                × (e ≢ primary_of_view r v))))
unfolding get_collectors_for
get_collectors_for-lem r ref_replica v seq ok dynamic = elim (Bool-cases (r.c_val == 0)) [
  | inl none_spare ↦
      inl (==→eq r.c_val 0 none_spare, one_collector r ref_replica v seq ok dynamic none_spare)
  | inr spare ↦ inr (ne_zero r.c_val spare, two_collectors r ref_replica v seq ok dynamic spare)
]
