-- ===== src/Network/Push/Creation.antt =====
-- What the daemon is asked for when a container is created from an image.
use botcoin.Base.{
  Text, ◌≡◌, ◌≢◌, refl, sym, ap, subst, ◌⊎◌, inl, inr, Bool, true, false, List, [], ◌∷◌,
  if◌then◌else◌,
}
use botcoin.Base.Bytes.{text}
use botcoin.Base.Result.{Error, Result, err}
use botcoin.Os.{World, image_pull, container_create, DockerAnswer, refused, done, created, listed}
use botcoin.Docker.{create_container_from_image}
use botcoin.Network.Push.{id_or_empty}

-- What an answer lists: nothing, when it is no listing.
abbrev pub entries : DockerAnswer → List (List Text × Text)
entries (listed l) = l
entries _ = []

-- The identifier in the answer to a creation, empty when there is none.
abbrev pub created_id : DockerAnswer → Text
created_id (created id) = id
created_id _ = []

-- The daemon has been asked for a container from the image, after a pull of the image if that is remote;
-- or the pull has been refused, and nothing else has been asked.
abbrev pub Creation : Text → Bool → Text → World → Text → World → Type 0
Creation image is_remote name v id made =
    let pulled = record v { calls = image_pull image ∷ v.calls } in
    let ready = if is_remote then pulled else v in
    let creation = container_create image name (text "run" ∷ []) in
    ((is_remote ≡ true)
      × (v.daemon v.calls (image_pull image) ≡ refused)
      × (id ≡ [])
      × (made ≡ pulled))
    ⊎ ((is_remote ≡ true → v.daemon v.calls (image_pull image) ≢ refused)
        × (id ≡ created_id (v.daemon ready.calls creation))
        × (made ≡ record v { calls = creation ∷ ready.calls }))

-- What a creation leaves.
created_after :
    (image name : Text) (v : World)
    → let creation = container_create image name (text "run" ∷ []) in
      let (r, made) = create_container_from_image image false name (text "run" ∷ []) false v in
      (id_or_empty r ≡ created_id (v.daemon v.calls creation))
      × (made ≡ record v { calls = creation ∷ v.calls })
unfolding create_container_from_image
created_after image name v =
    by_answer (v.daemon v.calls (container_create image name (text "run" ∷ []))) refl
  where
    by_answer :
        (a : DockerAnswer)
        → v.daemon v.calls (container_create image name (text "run" ∷ [])) ≡ a
        → let creation = container_create image name (text "run" ∷ []) in
          let (r, made) = create_container_from_image image false name (text "run" ∷ []) false v in
          (id_or_empty r ≡ created_id (v.daemon v.calls creation))
          × (made ≡ record v { calls = creation ∷ v.calls })
    by_answer refused h = rw h (refl, refl)
    by_answer done h = rw h (refl, refl)
    by_answer (created id) h = rw h (refl, refl)
    by_answer (listed l) h = rw h (refl, refl)

-- After a pull that has been answered, the rest is as for a local image.
created_pulled :
    (image name : Text) (v : World)
    → v.daemon v.calls (image_pull image) ≢ refused
    → create_container_from_image image true name (text "run" ∷ []) false v
      ≡ create_container_from_image image false name
          (text "run" ∷ [])
          false
          (record v { calls = image_pull image ∷ v.calls })
unfolding create_container_from_image
created_pulled image name v allowed = by_answer (v.daemon v.calls (image_pull image)) refl
  where
    by_answer :
        (a : DockerAnswer)
        → v.daemon v.calls (image_pull image) ≡ a
        → create_container_from_image image true name (text "run" ∷ []) false v
          ≡ create_container_from_image image false name
              (text "run" ∷ [])
              false
              (record v { calls = image_pull image ∷ v.calls })
    by_answer refused h = absurd (allowed h)
    by_answer done h = rw h refl
    by_answer (created id) h = rw h refl
    by_answer (listed l) h = rw h refl

created_refused :
    (image name : Text) (v : World)
    → v.daemon v.calls (image_pull image) ≡ refused
    → create_container_from_image image true name (text "run" ∷ []) false v
      ≡ (err Error.docker, record v { calls = image_pull image ∷ v.calls })
unfolding create_container_from_image
created_refused image name v h = rw h refl

is_refused : (a : DockerAnswer) → (a ≡ refused) ⊎ (a ≢ refused)
is_refused refused = inl refl
is_refused done = inr (λ e. cc)
is_refused (created id) = inr (λ e. cc)
is_refused (listed l) = inr (λ e. cc)

pub created-Creation :
    (image name : Text) (is_remote : Bool) (v : World)
    → let (r, made) = create_container_from_image image is_remote name (text "run" ∷ []) false v in
      Creation image is_remote name v (id_or_empty r) made
created-Creation image name false v =
    let (id, made) = created_after image name v in inr ((λ e. absurd (cc)), id, made)
created-Creation image name true v = elim (is_refused (v.daemon v.calls (image_pull image))) [
  | inl denied ↦
      let run = created_refused image name v denied in
      inl (
        refl,
        denied,
        ap (λ (p : Result Text × World). id_or_empty p.0) run,
        ap (λ (p : Result Text × World). p.1) run,
      )
  | inr allowed ↦
      let (id, made) =
        subst
          (λ (p : Result Text × World).
            let creation = container_create image name (text "run" ∷ []) in
            let calls = image_pull image ∷ v.calls in
            (id_or_empty p.0 ≡ created_id (v.daemon calls creation))
            × (p.1 ≡ record v { calls = creation ∷ calls }))
          (sym (created_pulled image name v allowed))
          (created_after image name (record v { calls = image_pull image ∷ v.calls })) in
      inr ((λ e. allowed), id, made)
]
