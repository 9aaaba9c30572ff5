-- ===== src/Docker/Stopping.antt =====
-- Stopping a network: which calls are made, and in which order.
use botcoin.Base.{
  Text, ◌≡◌, refl, sym, ap, ◌∙◌, subst, Bool, true, false, Option, none, some, List, [], ◌∷◌, In,
}
use botcoin.Base.Dict.{Dict, lookup}
use botcoin.Base.Result.{Result, ok, ok-injective}
use botcoin.Os.{
  World, DockerCall, client, network_list, container_list, network_remove, container_stop,
  container_remove, DockerAnswer,
}
use botcoin.Os.Rules.{M-eq-ok}
use botcoin.Docker.Listed.{
  network_in, container_in, IsListed, lookup-network_names, lookup-container_names, In-lookup,
  container_names-IsListed, Once, container_names-Once,
}
use botcoin.Docker.{
  call, as_done, as_listed, get_docker_client, network_names, get_networks, container_names,
  get_containers, stop_container, remove_container, remove_network, halt_container, halt_containers,
  stop_found, stop_network,
}

-- The calls on one container, and on all, in order.
abbrev pub halt_calls : Bool → Dict Text → List DockerCall
halt_calls force [] = []
halt_calls true ((name, id) ∷ cons) =
    container_stop id ∷ container_remove id true false false ∷ halt_calls true cons
halt_calls false ((name, id) ∷ cons) = container_stop id ∷ halt_calls false cons

-- Calls made in order, onto those before, the latest first.
abbrev pub after : List DockerCall → List DockerCall → List DockerCall
after [] calls = calls
after (c ∷ cs) calls = after cs (c ∷ calls)

-- A call that ends with a value is the latest, and leaves the daemon alone.
pub call-eq-ok :
    {A : Type 0} (read : DockerAnswer → Result A) (c : DockerCall) (w : World) {a : A} {w' : World}
    → call read c w ≡ (ok a, w')
    → (read (w.daemon w.calls c) ≡ ok a) × (record w { calls = c ∷ w.calls } ≡ w')
call-eq-ok {A} read c w h =
    (ap (λ (p : Result A × World). p.0) h, ap (λ (p : Result A × World). p.1) h)

halt_container-calls :
    (force : Bool) (name id : Text) (w : World) {w' : World}
    → halt_container force id w ≡ (ok tt, w')
    → record w { calls = after (halt_calls force ((name, id) ∷ [])) w.calls } ≡ w'
unfolding halt_container stop_container remove_container
halt_container-calls true name id w h =
    let (u, w1, e, k) = M-eq-ok (call as_done (container_stop id)) _ w h in
    let (_r, stopped) = call-eq-ok as_done (container_stop id) w e in
    let (_s, removed) = call-eq-ok as_done (container_remove id true false false) w1 k in
    ap (λ (v : World). record v { calls = container_remove id true false false ∷ v.calls }) stopped
    ∙ removed
halt_container-calls false name id w h =
    let (u, w1, e, k) = M-eq-ok (call as_done (container_stop id)) _ w h in
    let (_r, stopped) = call-eq-ok as_done (container_stop id) w e in
    stopped ∙ ap (λ (p : Result (Unit {0}) × World). p.1) k

after-halt :
    (force : Bool) (name id : Text) (cons : Dict Text) (calls : List DockerCall)
    → after (halt_calls force ((name, id) ∷ cons)) calls
      ≡ after (halt_calls force cons) (after (halt_calls force ((name, id) ∷ [])) calls)
after-halt true name id cons calls = refl
after-halt false name id cons calls = refl

halt_containers-calls :
    (force : Bool) (cons : Dict Text) (w : World) {w' : World}
    → halt_containers force cons w ≡ (ok tt, w')
    → record w { calls = after (halt_calls force cons) w.calls } ≡ w'
unfolding halt_containers
halt_containers-calls force [] w h = ap (λ (p : Result (Unit {0}) × World). p.1) h
halt_containers-calls force ((name, id) ∷ cons) w {w'} h =
    let (u, w1, e, k) = M-eq-ok (halt_container force id) _ w h in
    let one = halt_container-calls force name id w e in
    let rest = halt_containers-calls force cons w1 k in
    ap (λ cs. record w { calls = cs }) (after-halt force name id cons w.calls)
    ∙ ap (λ (v : World). record v { calls = after (halt_calls force cons) v.calls }) one
    ∙ rest

-- What a listing that succeeds has been answered.
get_networks-eq-ok :
    (w : World) {nets : Dict Text} {w' : World}
    → get_networks w ≡ (ok nets, w')
    → (l : List (List Text × Text)) × (as_listed (w.daemon w.calls network_list) ≡ ok l)
      × (network_names l [] ≡ nets)
      × (record w { calls = network_list ∷ w.calls } ≡ w')
unfolding get_networks
get_networks-eq-ok w {nets} {w'} h =
    let (l, w1, e, k) = M-eq-ok (call as_listed network_list) _ w h in
    let (answered, made) = call-eq-ok as_listed network_list w e in
    (
      l,
      answered,
      ok-injective (ap (λ (p : Result (Dict Text) × World). p.0) k),
      made ∙ ap (λ (p : Result (Dict Text) × World). p.1) k,
    )

get_containers-eq-ok :
    (w : World) {cons : Dict Text} {w' : World}
    → get_containers w ≡ (ok cons, w')
    → (l : List (List Text × Text)) × (as_listed (w.daemon w.calls container_list) ≡ ok l)
      × (container_names l [] ≡ cons)
      × (record w { calls = container_list ∷ w.calls } ≡ w')
unfolding get_containers
get_containers-eq-ok w {cons} {w'} h =
    let (l, w1, e, k) = M-eq-ok (call as_listed container_list) _ w h in
    let (answered, made) = call-eq-ok as_listed container_list w e in
    (
      l,
      answered,
      ok-injective (ap (λ (p : Result (Dict Text) × World). p.0) k),
      made ∙ ap (λ (p : Result (Dict Text) × World). p.1) k,
    )

-- What follows once the network has been found.
stop_found-calls :
    (range : Dict Text → Dict Text) (id : Text) (force : Bool) (w : World) {w' : World}
    → stop_found range (some id) force w ≡ (ok tt, w')
    → (l : List (List Text × Text)) × (as_listed (w.daemon w.calls container_list) ≡ ok l)
      × (w'.calls
          ≡ network_list
            ∷ network_remove id
            ∷ after (halt_calls force (range (container_names l []))) (container_list ∷ w.calls))
unfolding remove_network
stop_found-calls range id force w {w'} h =
    let (cons, w1, e1, h1) = M-eq-ok get_containers _ w h in
    let (l, answered, names, made1) = get_containers-eq-ok w e1 in
    let (u2, w2, e2, h2) = M-eq-ok (halt_containers force (range cons)) _ w1 h1 in
    let made2 = halt_containers-calls force (range cons) w1 e2 in
    let (u3, w3, e3, h3) = M-eq-ok (call as_done (network_remove id)) _ w2 h2 in
    let (_r, made3) = call-eq-ok as_done (network_remove id) w2 e3 in
    let (nets, w4, e4, h4) = M-eq-ok get_networks _ w3 h3 in
    let (_l, _a, _n, made4) = get_networks-eq-ok w3 e4 in
    let made5 = ap (λ (p : Result (Unit {0}) × World). p.1) h4 in
    (
      l,
      answered,
      sym (
          ap
            (λ cs.
              network_list
              ∷ network_remove id
              ∷ after (halt_calls force (range cs)) (container_list ∷ w.calls))
            names
          ∙ ap
              (λ (v : World).
                network_list ∷ network_remove id ∷ after (halt_calls force (range cons)) v.calls)
              made1
          ∙ ap (λ (v : World). network_list ∷ network_remove id ∷ v.calls) made2
          ∙ ap (λ (v : World). network_list ∷ v.calls) made3
          ∙ ap (λ (v : World). v.calls) (made4 ∙ made5)),
    )

-- The calls of a stop, as the code makes them.
stop_network-traced :
    (range : Dict Text → Dict Text) (name : Text) (force : Bool) (w : World) {w' : World}
    → stop_network range name force w ≡ (ok tt, w')
    → (nets : List (List Text × Text)) × (id : Text) × (cons : List (List Text × Text)) × (as_listed
          (w.daemon (client ∷ w.calls) network_list)
        ≡ ok nets)
      × (lookup name (network_names nets []) ≡ some id)
      × (as_listed (w.daemon (network_list ∷ client ∷ w.calls) container_list) ≡ ok cons)
      × (w'.calls
          ≡ network_list
            ∷ network_remove id
            ∷ after
                (halt_calls force (range (container_names cons [])))
                (container_list ∷ network_list ∷ client ∷ w.calls))
unfolding stop_network get_docker_client
stop_network-traced range name force w {w'} h =
    let (u, w1, e1, h1) = M-eq-ok (call as_done client) _ w h in
    let (_r, made1) = call-eq-ok as_done client w e1 in
    let (nets, w2, e2, h2) = M-eq-ok get_networks _ w1 h1 in
    let (l, answered, names, made2) = get_networks-eq-ok w1 e2 in
    let made : record w { calls = network_list ∷ client ∷ w.calls } ≡ w2 =
      ap (λ (v : World). record v { calls = network_list ∷ v.calls }) made1 ∙ made2 in
    by_found l
      (subst (λ (v : World). as_listed (v.daemon v.calls network_list) ≡ ok l) (sym made1) answered)
      (lookup name nets) (ap (lookup name) names)
      (subst (λ (v : World). stop_found range (lookup name nets) force v ≡ (ok tt, w')) (sym made)
        h2)
  where
    by_found :
        (l : List (List Text × Text))
        → as_listed (w.daemon (client ∷ w.calls) network_list) ≡ ok l
        → (o : Option Text) → lookup name (network_names l []) ≡ o
        → stop_found range o force (record w { calls = network_list ∷ client ∷ w.calls })
          ≡ (ok tt, w')
        → (nets : List (List Text × Text)) × (id : Text) × (cons : List (List Text × Text))
          × (as_listed (w.daemon (client ∷ w.calls) network_list) ≡ ok nets)
          × (lookup name (network_names nets []) ≡ some id)
          × (as_listed (w.daemon (network_list ∷ client ∷ w.calls) container_list) ≡ ok cons)
          × (w'.calls
              ≡ network_list
                ∷ network_remove id
                ∷ after
                    (halt_calls force (range (container_names cons [])))
                    (container_list ∷ network_list ∷ client ∷ w.calls))
    by_found l a none e k = absurd (cc)
    by_found l a (some id) e k =
        let (cons, b, made) = stop_found-calls range id force _ k in (l, id, cons, a, e, b, made)

listing :
    (a : DockerAnswer) {l : List (List Text × Text)}
    → as_listed a ≡ ok l
    → a ≡ DockerAnswer.listed l
listing DockerAnswer.refused h = absurd (cc)
listing DockerAnswer.done h = absurd (cc)
listing (DockerAnswer.created id) h = absurd (cc)
listing (DockerAnswer.listed k) h = ap DockerAnswer.listed (ok-injective h)

-- A way of going over maps: in any order, once over all that they hold.
pub record IsRange (range : Dict Text → Dict Text) : Type 0 where
  pub each : (k v : Text) (d : Dict Text) → In (k, v) d → In (k, v) (range d)
  pub only : (k v : Text) (d : Dict Text) → In (k, v) (range d) → In (k, v) d
  pub once : (d : Dict Text) → Once d → Once (range d)

-- When `StopNetwork` succeeds, the daemon has listed a network of the name and some containers, and the
-- calls after these listings are, in this order: for each of a number of containers, in some order, a
-- stop and, by force, its removal; then the removal of the network, and a last listing. The containers
-- are listed ones, by their first names, of this network or not; and there is just one for every first
-- name, the last that has it. `range` goes over the map of containers in any order.
pub stop_network-calls :
    (range : Dict Text → Dict Text) (name : Text) (force : Bool) (w : World) {w' : World}
    → IsRange range
    → stop_network range name force w ≡ (ok tt, w')
    → (nets : List (List Text × Text)) × (id : Text) × (cons : List (List Text × Text))
      × (halted : Dict Text) × (w.daemon (client ∷ w.calls) network_list ≡ DockerAnswer.listed nets)
      × (network_in name nets ≡ some id)
      × (w.daemon (network_list ∷ client ∷ w.calls) container_list ≡ DockerAnswer.listed cons)
      × ((k c : Text) → In (k, c) halted → IsListed k c cons)
      × ((k c : Text) → container_in k cons ≡ some c → In (k, c) halted)
      × Once halted
      × (w'.calls
          ≡ network_list
            ∷ network_remove id
            ∷ after (halt_calls force halted) (container_list ∷ network_list ∷ client ∷ w.calls))
stop_network-calls range name force w ranges h =
    let (nets, id, cons, a, found, b, calls) = stop_network-traced range name force w h in
    (
      nets,
      id,
      cons,
      range (container_names cons []),
      listing _ a,
      sym (lookup-network_names name nets) ∙ found,
      listing _ b,
      λ k c i. container_names-IsListed k c cons (ranges.only k c _ i),
      λ k c e. ranges.each k c _ (In-lookup k c _ (lookup-container_names k cons ∙ e)),
      ranges.once _ (container_names-Once cons [] tt),
      calls,
    )
