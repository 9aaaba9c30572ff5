-- ===== src/Babble/Evictions.antt =====
-- `processEvictions`: which validators are evicted.
use botcoin.Base.{
  ◌≡◌, refl, ◌↔◌, ◌⊎◌, inl, inr, ap, subst, Bool, true, false, some, List, [], ◌∷◌, All, In, map,
  Option-cases,
}
use botcoin.Babble.Types.{Peer, Receipt, Chain}
use botcoin.Babble.{eviction, evictions}

abbrev pub evicted_peers : List Receipt → List Peer
evicted_peers = map (λ (r : Receipt). r.internal_transaction.peer)

module _ (C : Chain) (s : C.State) where
  -- The key decodes, and the POA contract says that it does not list the address.
  abbrev pub IsUnlisted : Peer → Type 0
  IsUnlisted v =
      (pk : C.Key) × (C.unmarshal_pubkey v.pub_key_bytes ≡ some pk)
      × (C.check_authorised (C.pubkey_to_address pk) s ≡ some false)

  -- One validator is evicted or passed over.
  abbrev OneStep : Peer → List Peer → Type 0
  OneStep v vs =
      (IsUnlisted v × (evictions C s (v ∷ vs) ≡ eviction v ∷ evictions C s vs))
      ⊎ (¬ IsUnlisted v × (evictions C s (v ∷ vs) ≡ evictions C s vs))

  by_answer :
      (v : Peer) (vs : List Peer) (pk : C.Key) (listed : Bool)
      → C.unmarshal_pubkey v.pub_key_bytes ≡ some pk
      → C.check_authorised (C.pubkey_to_address pk) s ≡ some listed
      → OneStep v vs
  unfolding evictions
  by_answer v vs pk true d a = inr (λ (pk', d', a'). cc, rw d (rw a))
  by_answer v vs pk false d a = inl ((pk, d, a), rw d (rw a))

  evictions-cases : (v : Peer) (vs : List Peer) → OneStep v vs
  unfolding evictions
  evictions-cases v vs = elim (Option-cases (C.unmarshal_pubkey v.pub_key_bytes)) [
    | inl d ↦ inr (λ (pk, d', a). cc, rw d)
    | inr (pk, d) ↦ elim (Option-cases (C.check_authorised (C.pubkey_to_address pk) s)) [
      | inl a ↦ inr (λ (pk', d', a'). cc, rw d (rw a))
      | inr (listed, a) ↦ by_answer v vs pk listed d a
    ]
  ]

  -- The evicted peers are exactly the validators whose key decodes to an address of which the contract
  -- says that it is not listed; one whose key does not decode, or on which the query fails, stays.
  pub evictions-exact :
      (vs : List Peer) (v : Peer)
      → In v (evicted_peers (evictions C s vs)) ↔ (In v vs × IsUnlisted v)
  unfolding evictions
  evictions-exact [] v = (λ h. absurd h, λ h. absurd h.0)
  evictions-exact (w ∷ vs) v = elim (evictions-cases w vs) [
    | inl (unlisted, e) ↦ rw e (
      elim [ inl p ↦ (inl p, rw p unlisted) | inr h ↦ keep ((evictions-exact vs v).0 h) ],
      λ (m, u). elim m [ inl p ↦ inl p | inr h ↦ inr ((evictions-exact vs v).1 (h, u)) ],
    )
    | inr (listed, e) ↦ rw e (
      λ h. keep ((evictions-exact vs v).0 h),
      λ (m, u). elim m [
        | inl p ↦ absurd (listed (rw (← p) u))
        | inr h ↦ (evictions-exact vs v).1 (h, u)
      ],
    )
  ]
    where
      keep : In v vs × IsUnlisted v → In v (w ∷ vs) × IsUnlisted v
      keep (m, u) = (inr m, u)

  -- Every receipt accepts a removal.
  pub evictions-IsEviction :
      (vs : List Peer)
      → All (λ (r : Receipt). r ≡ eviction r.internal_transaction.peer) (evictions C s vs)
  unfolding evictions
  evictions-IsEviction [] = tt
  evictions-IsEviction (w ∷ vs) = elim (evictions-cases w vs) [
    | inl (unlisted, e) ↦ rw e (refl, evictions-IsEviction vs)
    | inr (listed, e) ↦ rw e (evictions-IsEviction vs)
  ]

  -- The receipt itself is there for each validator that is not listed.
  pub In-evictions :
      (vs : List Peer) (v : Peer) → In v vs → IsUnlisted v → In (eviction v) (evictions C s vs)
  In-evictions [] v m u = absurd m
  In-evictions (w ∷ vs) v m u = elim (evictions-cases w vs) [
    | inl (unlisted, e) ↦
        rw e (elim m [ inl p ↦ inl (ap eviction p) | inr h ↦ inr (In-evictions vs v h u) ])
    | inr (listed, e) ↦
        rw e (elim m [
          | inl p ↦ absurd (listed (subst IsUnlisted p u))
          | inr h ↦ In-evictions vs v h u
        ])
  ]
