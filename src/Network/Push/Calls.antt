-- ===== src/Network/Push/Calls.antt =====
-- What pushing a node asks of the daemon.
use botcoin.Base.{
  Text, ◌≡◌, ◌≢◌, refl, sym, ap, ◌∙◌, subst, ◌⊎◌, inl, inr, Bool, false, not, none, some, List, [],
  ◌∷◌, ◌++◌,
}
use botcoin.Base.Dict.{Dict, lookup}
use botcoin.Base.Bytes.{text}
use botcoin.Base.Bytes.Path.{join_path}
use botcoin.Base.Result.{Error, Result, ok, err, ok-injective}
use botcoin.Os.{
  World, fail_if, or_error, read_file, client, network_list, container_list, DockerAnswer, refused,
  done, created, listed,
}
use botcoin.Os.Disk.{read_file-eq-ok}
use botcoin.Os.Rules.{M-eq-ok, or_error-eq-ok}
use botcoin.Files.{check_if_exists}
use botcoin.Docker.{
  call, as_done, get_docker_client, get_networks, get_containers, create_container_from_image,
  network_names, container_names,
}
use botcoin.Docker.Listed.{network_in, container_in, lookup-network_names, lookup-container_names}
use botcoin.Docker.Stopping.{call-eq-ok}
use botcoin.Network.Toml.{NodeToml}
use botcoin.Network.Push.{or_empty, id_or_empty, push_docker_node}
use botcoin.Network.Push.Traced.{Sent, Traced, push_with-Traced}
use botcoin.Network.Push.Creation.{entries, Creation, created-Creation}

-- What the daemon has been asked when a push ends without an error: after the listing of the networks,
-- either that was refused and nothing more was asked, or the network is there, no container with the name
-- of the node was listed, and the container was created, got its files, was connected and started.
abbrev pub Pushed : Text → Text → Text → Text → Bool → Text → World → World → Type 0
Pushed network_name node_name ip image is_remote folder w w' =
    (((l : List (List Text × Text)) → w.daemon w.calls network_list ≢ listed l)
      × (w' ≡ record w { calls = network_list ∷ w.calls }))
    ⊎ ((l : List (List Text × Text)) × (network_id : Text) × (id : Text) × (made : World)
        × (w.daemon w.calls network_list ≡ listed l)
        × (network_in network_name l ≡ some network_id)
        × (container_in node_name (entries (w.daemon (network_list ∷ w.calls) container_list))
            ≡ none)
        × Creation image is_remote node_name
            (record w { calls = container_list ∷ network_list ∷ w.calls }) id made
        × Sent network_id id ip folder made w')

abbrev names_of : DockerAnswer → Result (Dict Text)
names_of (listed l) = ok (network_names l [])
names_of _ = err Error.docker

get_networks-answered :
    (w : World) (a : DockerAnswer)
    → w.daemon w.calls network_list ≡ a
    → get_networks w ≡ (names_of a, record w { calls = network_list ∷ w.calls })
unfolding get_networks network_names
get_networks-answered w refused h = rw h refl
get_networks-answered w done h = rw h refl
get_networks-answered w (created id) h = rw h refl
get_networks-answered w (listed l) h = rw h refl

get_containers-answered :
    (w : World) (a : DockerAnswer)
    → w.daemon w.calls container_list ≡ a
    → (or_empty (get_containers w).0 ≡ container_names (entries a) [])
      × ((get_containers w).1 ≡ record w { calls = container_list ∷ w.calls })
unfolding get_containers container_names
get_containers-answered w refused h = rw h (refl, refl)
get_containers-answered w done h = rw h (refl, refl)
get_containers-answered w (created id) h = rw h (refl, refl)
get_containers-answered w (listed l) h = rw h (refl, refl)

-- The rest of a push, from the listing of the containers.
asked_containers :
    (network_id node_name ip image : Text) (is_remote : Bool) (folder : Text) (v w' : World)
    → (lookup node_name (or_empty (get_containers v).0) ≡ none)
      × (let (id, made) =
            create_container_from_image image is_remote node_name
              (text "run" ∷ [])
              false
              (get_containers v).1 in
          Sent network_id (id_or_empty id) ip folder made w')
    → (id : Text) × (made : World) × (container_in node_name
          (entries (v.daemon v.calls container_list))
        ≡ none)
      × Creation image is_remote node_name (record v { calls = container_list ∷ v.calls }) id made
      × Sent network_id id ip folder made w'
asked_containers network_id node_name ip image is_remote folder v w' (free, sent) =
    let (names, after) = get_containers-answered v (v.daemon v.calls container_list) refl in
    let asked = record v { calls = container_list ∷ v.calls } in
    let (id, made) =
      create_container_from_image image is_remote node_name (text "run" ∷ []) false asked in
    (
      id_or_empty id,
      made,
      sym (lookup-container_names node_name (entries (v.daemon v.calls container_list)))
          ∙ ap (lookup node_name) (sym names)
          ∙ free,
      created-Creation image node_name is_remote asked,
      subst
          (λ u.
            let (r, m) =
              create_container_from_image image is_remote node_name (text "run" ∷ []) false u in
            Sent network_id (id_or_empty r) ip folder m w')
          after sent,
    )

Traced-Pushed :
    (network_name node_name ip image : Text) (is_remote : Bool) (folder : Text) (w w' : World)
    → Traced network_name node_name ip image is_remote folder w w'
    → Pushed network_name node_name ip image is_remote folder w w'
Traced-Pushed network_name node_name ip image is_remote folder w w' (inl (not_ok, same)) = inl (
  (λ l e.
      not_ok (network_names l [])
        (ap (λ (p : Result (Dict Text) × World). p.0) (get_networks-answered w (listed l) e))),
  same
      ∙ ap (λ (p : Result (Dict Text) × World). p.1)
          (get_networks-answered w (w.daemon w.calls network_list) refl),
)
Traced-Pushed network_name node_name ip image is_remote folder w w'
      (inr (n, network_id, e, found, free, sent)) =
    by_answer (w.daemon w.calls network_list) refl
  where
    no_names : (a : DockerAnswer) → w.daemon w.calls network_list ≡ a → names_of a ≡ ok n
    no_names a h =
        sym (ap (λ (p : Result (Dict Text) × World). p.0) (get_networks-answered w a h)) ∙ e

    by_answer :
        (a : DockerAnswer)
        → w.daemon w.calls network_list ≡ a
        → Pushed network_name node_name ip image is_remote folder w w'
    by_answer (listed l) h =
        let run = get_networks-answered w (listed l) h in
        let names = ok-injective (sym (ap (λ (p : Result (Dict Text) × World). p.0) run) ∙ e) in
        let (id, made, unused, creation, pushed) =
          asked_containers network_id node_name ip image is_remote folder
            (record w { calls = network_list ∷ w.calls }) w'
            (subst
              (λ (v : World).
                (lookup node_name (or_empty (get_containers v).0) ≡ none)
                × (let (r, m) =
                      create_container_from_image image is_remote node_name (text "run" ∷ []) false
                        (get_containers v).1 in
                    Sent network_id (id_or_empty r) ip folder m w'))
              (ap (λ (p : Result (Dict Text) × World). p.1) run) (free, sent)) in
        inr (
          l,
          network_id,
          id,
          made,
          h,
          sym (lookup-network_names network_name l) ∙ ap (lookup network_name) names ∙ found,
          unused,
          creation,
          pushed,
        )
    by_answer refused h = absurd (let e' = no_names refused h in cc)
    by_answer done h = absurd (let e' = no_names done h in cc)
    by_answer (created id) h = absurd (let e' = no_names (created id) h in cc)

-- A file that is read leaves the world as it was.
read_file-world :
    (p : Text) (w : World) {s : Text} {w' : World} → read_file p w ≡ (ok s, w') → w ≡ w'
read_file-world p w h = let (m, same, there, readable) = read_file-eq-ok p w h in sym same

module _ (T : NodeToml) where
  -- When a push of a node ends without an error, the description of the node has been read, a client
  -- has been made, and either the daemon has not listed the networks and nothing more has been asked; or it
  -- has listed the network, and no container with the name of the node; it has been asked, after a pull of
  -- the image if that is remote, to create one from the image, under the name of the node; and the archive
  -- of the node's folder has been sent to the identifier of the answer, which has been connected to the
  -- network under the address of the description and started, in this order. When the pull has been refused,
  -- nothing has been created, and when the answer to the creation is no identifier, the last calls are made
  -- all the same, with an empty one.
  pub push_docker_node-Pushed :
      (config_dir network_name node_name image : Text) (is_remote : Bool) (w : World) {w' : World}
      → push_docker_node T config_dir network_name node_name image is_remote w ≡ (ok tt, w')
      → let docker_path =
          join_path (config_dir ∷ text "networks" ∷ network_name ∷ text "docker" ∷ []) in
        (content : Text) × (read_file (join_path (docker_path ∷ (node_name ++ text ".toml") ∷ [])) w
          ≡ (ok content, w))
        × Pushed network_name node_name
            (T.unmarshal_node content).net_addr
            image
            is_remote
            (join_path (docker_path ∷ node_name ∷ []))
            (record w { calls = client ∷ w.calls })
            w'
  unfolding push_docker_node get_docker_client
  push_docker_node-Pushed config_dir network_name node_name image is_remote w {w'} h =
      let docker_path =
        join_path (config_dir ∷ text "networks" ∷ network_name ∷ text "docker" ∷ []) in
      let folder = join_path (docker_path ∷ node_name ∷ []) in
      let toml_file = join_path (docker_path ∷ (node_name ++ text ".toml") ∷ []) in
      let (u1, w1, e1, h1) =
        M-eq-ok (fail_if (not (check_if_exists docker_path w)) Error.no_docker_config) _ w h in
      let s1 = ap (λ (p : Result (Unit {0}) × World). p.1) e1 in
      let (u2, w2, e2, h2) =
        M-eq-ok (fail_if (not (check_if_exists folder w1)) Error.no_docker_folder) _ w1 h1 in
      let s2 = ap (λ (p : Result (Unit {0}) × World). p.1) e2 in
      let (u3, w3, e3, h3) =
        M-eq-ok (fail_if (not (check_if_exists toml_file w2)) Error.no_docker_toml) _ w2 h2 in
      let s3 = ap (λ (p : Result (Unit {0}) × World). p.1) e3 in
      let (content, w4, e4, h4) =
        M-eq-ok (or_error (read_file toml_file) Error.toml_read) _ w3 h3 in
      let r4 = or_error-eq-ok (read_file toml_file) Error.toml_read w3 e4 in
      let s4 = read_file-world toml_file w3 r4 in
      let (u5, w5, e5, h5) = M-eq-ok (call as_done client) _ w4 h4 in
      let (_, s5) = call-eq-ok as_done client w4 e5 in
      let same = s1 ∙ s2 ∙ s3 in
      (
        content,
        subst (λ v. read_file toml_file v ≡ (ok content, v)) (sym same)
            (subst (λ v. read_file toml_file w3 ≡ (ok content, v)) (sym s4) r4),
        subst
            (λ v.
              Pushed network_name node_name (T.unmarshal_node content).net_addr image is_remote
                folder v w')
            (sym s5 ∙ ap (λ (v : World). record v { calls = client ∷ v.calls }) (sym (same ∙ s4)))
            (Traced-Pushed network_name node_name (T.unmarshal_node content).net_addr image
              is_remote folder w5 w'
              (push_with-Traced network_name node_name (T.unmarshal_node content).net_addr image
                is_remote folder w5 h5)),
      )
