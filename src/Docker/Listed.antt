-- ===== src/Docker/Listed.antt =====
-- What a listing of the daemon says of a name: the identifier of the last entry that has it as its first.
use botcoin.Base.{
  Text, subst, ◌≢◌, ◌≡◌, refl, sym, ap, ◌∙◌, ◌⊎◌, inl, inr, Bool-cases, Option, none, some, List,
  [], ◌∷◌, ◌==◌, nat_eq, text_eq, In, arith, if◌then◌else◌,
}
use botcoin.Base.Dict.{Dict, lookup, insert, lookup-insert}
use botcoin.Base.Bytes.{trim_left}
use botcoin.Docker.{network_names, container_names}

abbrev pub id_in : (Text → Text) → Text → List (List Text × Text) → Option Text → Option Text
id_in read name [] there = there
id_in read name (([], id) ∷ l) there = id_in read name l there
id_in read name ((n ∷ names, id) ∷ l) there =
    id_in read name l (if name == read n then some id else there)

-- The name of a container, without the slashes in front.
abbrev pub unslashed : Text → Text
unslashed = trim_left (λ c. c == b'/')

abbrev pub network_in : Text → List (List Text × Text) → Option Text
network_in name l = id_in (λ n. n) name l none

abbrev pub container_in : Text → List (List Text × Text) → Option Text
container_in name l = id_in unslashed name l none

lookup-network_names_from :
    (name : Text) (l : List (List Text × Text)) (d : Dict Text)
    → lookup name (network_names l d) ≡ id_in (λ n. n) name l (lookup name d)
unfolding network_names
lookup-network_names_from name [] d = refl
lookup-network_names_from name (([], id) ∷ l) d = lookup-network_names_from name l d
lookup-network_names_from name ((n ∷ names, id) ∷ l) d =
    lookup-network_names_from name l (insert n id d)
    ∙ ap (id_in (λ m. m) name l) (lookup-insert name n id d)

lookup-container_names_from :
    (name : Text) (l : List (List Text × Text)) (d : Dict Text)
    → lookup name (container_names l d) ≡ id_in unslashed name l (lookup name d)
unfolding container_names
lookup-container_names_from name [] d = refl
lookup-container_names_from name (([], id) ∷ l) d = lookup-container_names_from name l d
lookup-container_names_from name ((n ∷ names, id) ∷ l) d =
    lookup-container_names_from name l (insert (unslashed n) id d)
    ∙ ap (id_in unslashed name l) (lookup-insert name (unslashed n) id d)

pub lookup-network_names :
    (name : Text) (l : List (List Text × Text))
    → lookup name (network_names l []) ≡ network_in name l
unfolding lookup
lookup-network_names name l = lookup-network_names_from name l []

pub lookup-container_names :
    (name : Text) (l : List (List Text × Text))
    → lookup name (container_names l []) ≡ container_in name l
unfolding lookup
lookup-container_names name l = lookup-container_names_from name l []

-- The entry is one of the listing, by its first name.
abbrev pub IsListed : Text → Text → List (List Text × Text) → Type 0
IsListed name id l = (n : Text) × (names : List Text) × In (n ∷ names, id) l × (name ≡ unslashed n)

pub In-lookup : (k v : Text) (d : Dict Text) → lookup k d ≡ some v → In (k, v) d
unfolding lookup
In-lookup k v [] h = absurd (cc)
In-lookup k v ((j, u) ∷ d) h = elim (Bool-cases (k == j)) [
  | inl e ↦
      let same : some u ≡ some v = rw e at h in
      let keys : k ≡ j = ground arith in
      let values : u ≡ v = cc in inl (λ i. (keys i, sym values i))
  | inr e ↦ let rest : lookup k d ≡ some v = rw e at h in inr (In-lookup k v d rest)
]

In-insert :
    (k v j u : Text) (d : Dict Text) → In (k, v) (insert j u d) → ((k ≡ j) × (v ≡ u)) ⊎ In (k, v) d
unfolding insert
In-insert k v j u [] (inl e) =
    inl (ap (λ (p : Text × Text). p.0) e, ap (λ (p : Text × Text). p.1) e)
In-insert k v j u [] (inr m) = absurd m
In-insert k v j u ((i, x) ∷ d) m = elim (Bool-cases (j == i)) [
  | inl e ↦ elim (the_replaced (rw e at m)) [ inl h ↦ inl h | inr h ↦ inr (inr h) ]
  | inr e ↦ elim (the_kept (rw e at m)) [
    | inl h ↦ inr (inl h)
    | inr h ↦ elim (In-insert k v j u d h) [ inl same ↦ inl same | inr h' ↦ inr (inr h') ]
  ]
]
  where
    the_replaced : In (k, v) ((j, u) ∷ d) → ((k ≡ j) × (v ≡ u)) ⊎ In (k, v) d
    the_replaced (inl e) = inl (ap (λ (p : Text × Text). p.0) e, ap (λ (p : Text × Text). p.1) e)
    the_replaced (inr h) = inr h

    the_kept :
        In (k, v) ((i, x) ∷ insert j u d)
        → (◌≡◌ {A = Text × Text} (k, v) (i, x)) ⊎ In (k, v) (insert j u d)
    the_kept h = h

container_names-IsListed_from :
    (k v : Text) (l : List (List Text × Text)) (d : Dict Text)
    → In (k, v) (container_names l d)
    → IsListed k v l ⊎ In (k, v) d
unfolding container_names
container_names-IsListed_from k v [] d m = inr m
container_names-IsListed_from k v (([], id) ∷ l) d m =
    elim (container_names-IsListed_from k v l d m) [
      | inl (n, ns, i, e) ↦ inl (n, ns, inr i, e)
      | inr i ↦ inr i
    ]
container_names-IsListed_from k v ((n ∷ names, id) ∷ l) d m =
    elim (container_names-IsListed_from k v l (insert (unslashed n) id d) m) [
      | inl (n', ns, i, e) ↦ inl (n', ns, inr i, e)
      | inr i ↦ elim (In-insert k v (unslashed n) id d i) [
        | inl (e, e') ↦ inl (n, names, inl (λ t. (n ∷ names, e' t)), e)
        | inr i' ↦ inr i'
      ]
    ]

pub container_names-IsListed :
    (k v : Text) (l : List (List Text × Text)) → In (k, v) (container_names l []) → IsListed k v l
container_names-IsListed k v l m = elim (container_names-IsListed_from k v l [] m) [
  | inl h ↦ h
  | inr h ↦ absurd h
]

-- No name stands twice in a map.
abbrev pub Once : Dict Text → Type 0
Once [] = Unit
Once ((k, v) ∷ d) = ((u : Text) → ¬ In (k, u) d) × Once d

insert-Once : (j u : Text) (d : Dict Text) → Once d → Once (insert j u d)
unfolding insert
insert-Once j u [] h = (λ v m. m, tt)
insert-Once j u ((i, x) ∷ d) (free, h) = elim (Bool-cases (j == i)) [
  | inl e ↦
      let same : j ≡ i = ground arith in rw e (λ v m. free v (subst (λ n. In (n, v) d) same m), h)
  | inr e ↦
      let other : i ≢ j = λ same. ground arith in
      rw e (
        λ v m. elim (In-insert i v j u d m) [ inl q ↦ other q.0 | inr m' ↦ free v m' ],
        insert-Once j u d h,
      )
]

pub container_names-Once :
    (l : List (List Text × Text)) (d : Dict Text) → Once d → Once (container_names l d)
unfolding container_names
container_names-Once [] d h = h
container_names-Once (([], id) ∷ l) d h = container_names-Once l d h
container_names-Once ((n ∷ names, id) ∷ l) d h =
    container_names-Once l (insert (unslashed n) id d) (insert-Once (unslashed n) id d h)
