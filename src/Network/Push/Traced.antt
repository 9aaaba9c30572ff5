-- ===== src/Network/Push/Traced.antt =====
-- A push as a chain of operations: which of them have been carried out.
use botcoin.Base.{
  Text, ◌≡◌, ◌≢◌, refl, sym, ap, ◌∙◌, ◌⊎◌, inl, inr, Bool, false, Option, none, some, List, [], ◌∷◌,
}
use botcoin.Base.Dict.{Dict, lookup}
use botcoin.Base.Bytes.{text}
use botcoin.Base.Result.{Error, Result, ok, err, panic, hang}
use botcoin.Os.{World, M, ◌>>=◌, container_start, network_connect, copy_to_container, ArchiveEntry}
use botcoin.Os.Rules.{M-eq-ok, reading-eq-ok}
use botcoin.Docker.{
  call, as_done, get_networks, get_containers, create_container_from_image, start_container,
  connect_container_to_network, copy_to,
}
use botcoin.Docker.Archive.{new_tar_archive_from_path}
use botcoin.Docker.Packing.{new_tar_archive_from_path-Leaves}
use botcoin.Docker.Stopping.{call-eq-ok}
use botcoin.Network.Push.{attempt, or_empty, id_or_empty, push_container, push_to, push_with}

-- What has been sent to a container that has been created: the archive of the folder, and the last
-- three calls.
abbrev pub Sent : Text → Text → Text → Text → World → World → Type 0
Sent network_id id ip folder made w' =
    (archive : List ArchiveEntry) × (new_tar_archive_from_path folder made ≡ (ok archive, made))
    × (w'.calls
        ≡ container_start id
          ∷ network_connect network_id id ip
          ∷ copy_to_container id (text "/") archive
          ∷ made.calls)

-- The last three calls, on the container that has been created.
push_container-calls :
    (network_id node_name ip image : Text) (is_remote : Bool) (folder : Text) (w : World)
    {w' : World}
    → push_container network_id node_name ip image is_remote folder w ≡ (ok tt, w')
    → let (id, made) =
        create_container_from_image image is_remote node_name (text "run" ∷ []) false w in
      Sent network_id (id_or_empty id) ip folder made w'
unfolding push_container start_container connect_container_to_network copy_to
push_container-calls network_id node_name ip image is_remote folder w {w'} h =
    let (r, made) =
      create_container_from_image image is_remote node_name (text "run" ∷ []) false w in
    let id = id_or_empty r in
    let (u1, w1, e1, h1) = M-eq-ok (copy_to id folder (text "/")) _ made h in
    let (archive, packed, e1') =
      reading-eq-ok (new_tar_archive_from_path folder) _ made
        (λ a v e.
          sym (ap (λ (p : Result (List ArchiveEntry) × World). p.1) e)
          ∙ new_tar_archive_from_path-Leaves folder made)
        e1 in
    let (_a, c1) = call-eq-ok as_done (copy_to_container id (text "/") archive) made e1' in
    let (u2, w2, e2, h2) = M-eq-ok (call as_done (network_connect network_id id ip)) _ w1 h1 in
    let (_b, c2) = call-eq-ok as_done (network_connect network_id id ip) w1 e2 in
    let (_c, c3) = call-eq-ok as_done (container_start id) w2 h2 in
    (
      archive,
      packed,
      sym (
          ap (λ (v : World). container_start id ∷ network_connect network_id id ip ∷ v.calls) c1
          ∙ ap (λ (v : World). container_start id ∷ v.calls) c2
          ∙ ap (λ (v : World). v.calls) c3),
    )

-- A push that ends without an error, by the operations that it is made of.
abbrev pub Traced : Text → Text → Text → Text → Bool → Text → World → World → Type 0
Traced network_name node_name ip image is_remote folder w w' =
    let (nets, asked) = get_networks w in
    (((n : Dict Text) → nets ≢ ok n) × (w' ≡ asked))
    ⊎ ((n : Dict Text) × (network_id : Text) × (nets ≡ ok n)
        × (lookup network_name n ≡ some network_id)
        × (lookup node_name (or_empty (get_containers asked).0) ≡ none)
        × (let (id, made) =
              create_container_from_image image is_remote node_name (text "run" ∷ []) false
                (get_containers asked).1 in
            Sent network_id (id_or_empty id) ip folder made w'))

push_to-calls :
    (o : Option Text) (node_name ip image : Text) (is_remote : Bool) (folder : Text) (w : World)
    {w' : World}
    → push_to o node_name ip image is_remote folder w ≡ (ok tt, w')
    → (network_id : Text) × (o ≡ some network_id)
      × (lookup node_name (or_empty (get_containers w).0) ≡ none)
      × (let (id, made) =
            create_container_from_image image is_remote node_name
              (text "run" ∷ [])
              false
              (get_containers w).1 in
          Sent network_id (id_or_empty id) ip folder made w')
push_to-calls none node_name ip image is_remote folder w h = absurd (cc)
push_to-calls (some network_id) node_name ip image is_remote folder w {w'} h =
    by_container (lookup node_name (or_empty (get_containers w).0)) refl h
  where
    by_container :
        (o : Option Text)
        → lookup node_name (or_empty (get_containers w).0) ≡ o
        → (elim o as (λ x. M (Unit {0})) [
          | none ↦ push_container network_id node_name ip image is_remote folder
          | some existing ↦ (λ v. (err Error.node_exists, v))
        ])
            (get_containers w).1
          ≡ (ok tt, w')
        → (nid : Text) × (some network_id ≡ some nid)
          × (lookup node_name (or_empty (get_containers w).0) ≡ none)
          × (let (id, made) =
                create_container_from_image image is_remote node_name
                  (text "run" ∷ [])
                  false
                  (get_containers w).1 in
              Sent nid (id_or_empty id) ip folder made w')
    by_container none e k = (
      network_id,
      refl,
      e,
      push_container-calls network_id node_name ip image is_remote folder _ k,
    )
    by_container (some existing) e k = absurd (cc)

pub push_with-Traced :
    (network_name node_name ip image : Text) (is_remote : Bool) (folder : Text) (w : World)
    {w' : World}
    → (attempt get_networks >>= λ nets.
          push_with nets network_name node_name ip image is_remote folder)
        w
      ≡ (ok tt, w')
    → Traced network_name node_name ip image is_remote folder w w'
push_with-Traced network_name node_name ip image is_remote folder w {w'} h =
    by_listing (get_networks w).0 refl h
  where
    by_listing :
        (r : Result (Dict Text))
        → (get_networks w).0 ≡ r
        → push_with r network_name node_name ip image is_remote folder (get_networks w).1
          ≡ (ok tt, w')
        → Traced network_name node_name ip image is_remote folder w w'
    by_listing (ok n) e k =
        let (nid, found, free, calls) =
          push_to-calls (lookup network_name n) node_name ip image is_remote folder _ k in
        inr (n, nid, e, found, free, calls)
    by_listing (err x) e k = inl ((λ n f. cc), sym (ap (λ (p : Result (Unit {0}) × World). p.1) k))
    by_listing panic e k = inl ((λ n f. cc), sym (ap (λ (p : Result (Unit {0}) × World). p.1) k))
    by_listing hang e k = inl ((λ n f. cc), sym (ap (λ (p : Result (Unit {0}) × World). p.1) k))
