-- ===== src/Docker/Creating.antt =====
-- Creating a network over one that exists.
use botcoin.Base.{Text, ◌≡◌, ◌⊎◌, inl, inr, Bool, true, false, Option, none, some, List, [], ◌∷◌}
use botcoin.Base.Dict.{lookup}
use botcoin.Base.Result.{Error, ok, err}
use botcoin.Os.{World, ◌>>=◌, DockerCall, network_list, network_create, DockerAnswer}
use botcoin.Docker.{
  call, as_listed, as_created, get_networks, network_names, create_network, remove_network,
  safe_create, safe_create_network,
}
use botcoin.Docker.Trace.{Calls, Only, Only-refl, call-Calls, bind-Calls}

-- What `SafeCreateNetwork` may ask for without force, or when an existing network may be used.
abbrev pub IsAdditive : DockerCall → Type 0
IsAdditive network_list = Unit
IsAdditive (network_create name subnet ip_range gateway) = Unit
IsAdditive _ = ⊥

safe_create-IsAdditive :
    (o : Option Text) (name subnet ip_range gateway : Text) (force use_existing : Bool)
    → (force ≡ false) ⊎ (use_existing ≡ true)
    → Calls IsAdditive (safe_create o name subnet ip_range gateway force use_existing)
unfolding create_network
safe_create-IsAdditive none name s r g force use_existing h =
    call-Calls IsAdditive as_created (network_create name s r g) tt
safe_create-IsAdditive (some id) name s r g force true h = Only-refl IsAdditive
safe_create-IsAdditive (some id) name s r g false false h = Only-refl IsAdditive
safe_create-IsAdditive (some id) name s r g true false (inl e) = absurd (cc)
safe_create-IsAdditive (some id) name s r g true false (inr e) = absurd (cc)

-- Unless it is forced, and may not use an existing network, `SafeCreateNetwork` asks only for the list
-- of networks and for creations, whatever its outcome, and leaves the disk as it was.
pub safe_create_network-IsAdditive :
    (name subnet ip_range gateway : Text) (force use_existing : Bool) (w : World)
    → (force ≡ false) ⊎ (use_existing ≡ true)
    → Only IsAdditive w (safe_create_network name subnet ip_range gateway force use_existing w).1
unfolding safe_create_network get_networks
safe_create_network-IsAdditive name s r g force use_existing w h =
    bind-Calls IsAdditive get_networks _
      (bind-Calls IsAdditive (call as_listed network_list) _
        (call-Calls IsAdditive as_listed network_list tt) (λ l. Only-refl IsAdditive))
      (λ nets. safe_create-IsAdditive (lookup name nets) name s r g force use_existing h) w

-- With the networks that the daemon lists: the network's identifier is the one that is there, and no
-- further call is made, when an existing network may be used; it fails without a further call when
-- that is neither allowed nor forced; and by force the one that is there is removed before the new one
-- is created.
pub safe_create_network-existing :
    (name subnet ip_range gateway id : Text) (nets : List (List Text × Text)) (w : World)
    → w.daemon w.calls network_list ≡ DockerAnswer.listed nets
    → lookup name (network_names nets []) ≡ some id
    → let listed_world = record w { calls = network_list ∷ w.calls } in
      let replaced = safe_create_network name subnet ip_range gateway true false w in
      ((force : Bool)
        → safe_create_network name subnet ip_range gateway force true w ≡ (ok id, listed_world))
      × (safe_create_network name subnet ip_range gateway false false w
          ≡ (err Error.docker_network_exists, listed_world))
      × (replaced
          ≡ (remove_network id >>= λ _. create_network name subnet ip_range gateway) listed_world)
unfolding safe_create_network get_networks
safe_create_network-existing name s r g id nets w h found =
    ((λ force. rw h (rw found)), rw h (rw found), rw h (rw found))
