-- ===== src/Monetd/Pull/Fetched.antt =====
-- What stands at the destinations when the files of a network have been downloaded.
use botcoin.Base.{
  ℕ, Text, ◌≡◌, ◌≢◌, refl, sym, ap, subst, ◌∙◌, Bool, true, false, Bool-cases, ◌⊎◌, inl, inr,
  Option, some, List, [], ◌∷◌, map, All, In, arith, if◌then◌else◌,
}
use botcoin.Base.Dict.{lookup}
use botcoin.Base.Result.{Error, Result, ok, err, panic, hang}
use botcoin.Os.{World, file, write_file}
use botcoin.Os.Rules.{M-eq-ok, or_error-eq-ok}
use botcoin.Os.Disk.{write_file-written, write_file-others}
use botcoin.Files.{
  check_if_exists, process_file_options, has_option, prompt_if_existing, prompt_overwrite,
  confirm_overwrite, write_to_file, get_request, download_file,
}
use botcoin.Genesis.Storage.Layout.{Nodup}
use botcoin.Monetd.Pull.{DownloadItem, download_all}

abbrev pub chosen : Bool → ℕ
chosen interactive = if interactive then prompt_if_existing else 0

-- A prompt changes neither the disk nor what the servers answer.
pub options-plain :
    (p : Text) (interactive : Bool) (w : World)
    → let w' = (process_file_options p (chosen interactive) w).1 in
      (w'.disk ≡ w.disk) × (w'.net ≡ w.net)
unfolding process_file_options has_option prompt_overwrite
options-plain p true w =
    by_answer (Bool-cases (check_if_exists p w)) (confirm_overwrite w.stdin).0 refl
  where
    by_answer :
        ((check_if_exists p w ≡ true) ⊎ (check_if_exists p w ≡ false))
        → (r : Result (Unit {0})) → (confirm_overwrite w.stdin).0 ≡ r
        → let w' = (process_file_options p (chosen true) w).1 in
          (w'.disk ≡ w.disk) × (w'.net ≡ w.net)
    by_answer (inl e) (ok u) k = rw e (rw k (refl, refl))
    by_answer (inl e) (err x) k = rw e (rw k (refl, refl))
    by_answer (inl e) panic k = rw e (rw k (refl, refl))
    by_answer (inl e) hang k = rw e (rw k (refl, refl))
    by_answer (inr e) r k = rw e (refl, refl)
options-plain p false w = elim (Bool-cases (check_if_exists p w)) [
  | inl e ↦ rw e (refl, refl)
  | inr e ↦ rw e (refl, refl)
]

write_file-net : (p body : Text) (mode : ℕ) (w : World) → (write_file p body mode w).1.net ≡ w.net
unfolding write_file
write_file-net p body mode w = ground arith

get_request-found :
    (url : Text) (w : World) {body : Text} {w' : World}
    → get_request url w ≡ (ok body, w')
    → (w.net url ≡ some body) × (w ≡ w')
unfolding get_request
get_request-found url w h = (ground arith, ground arith)

-- A download that succeeds: what the server answers stands at the path, and nothing else is changed.
download_file-fetched :
    (url p : Text) (interactive : Bool) (w : World) {w' : World}
    → download_file url p interactive w ≡ (ok tt, w')
    → (body : Text) × (m : ℕ) × (w.net url ≡ some body)
      × (lookup p w'.disk ≡ some (file m body))
      × ((q : Text) → q ≢ p → lookup q w'.disk ≡ lookup q w.disk)
      × (w'.net ≡ w.net)
unfolding download_file write_to_file
download_file-fetched url p interactive w {w'} h =
    let (body, w1, e1, h1) = M-eq-ok (get_request url) _ w h in
    let (served, same) = get_request-found url w e1 in
    let (u, w2, e2, h2) = M-eq-ok (process_file_options p (chosen interactive)) _ w1 h1 in
    let asked = ap (λ (r : Result (Unit {0}) × World). r.1) e2 in
    let (disk, net) = options-plain p interactive w1 in
    let wrote = or_error-eq-ok (write_file p body 0o644) Error.write_failed w2 h2 in
    let ends = ap (λ (r : Result (Unit {0}) × World). r.1) wrote in
    let (m, there) = write_file-written p body 0o644 w2 wrote in
    (
      body,
      m,
      served,
      there,
      λ q n.
          ap (λ (v : World). lookup q v.disk) (sym ends)
          ∙ write_file-others p body 0o644 w2 q n
          ∙ ap (λ (v : World). lookup q v.disk) (sym asked)
          ∙ ap (lookup q) disk
          ∙ ap (λ (v : World). lookup q v.disk) (sym same),
      ap (λ (v : World). v.net) (sym ends)
          ∙ write_file-net p body 0o644 w2
          ∙ ap (λ (v : World). v.net) (sym asked)
          ∙ net
          ∙ ap (λ (v : World). v.net) (sym same),
    )

abbrev pub dests : List DownloadItem → List Text
dests = map (λ (item : DownloadItem). item.dest)

-- What the server of one world answers stands on the disk of another.
abbrev pub IsFetched : World → World → DownloadItem → Type 0
IsFetched served w item =
    (body : Text) × (m : ℕ) × (served.net item.url ≡ some body)
    × (lookup item.dest w.disk ≡ some (file m body))

download_all-others :
    (items : List DownloadItem) (interactive : Bool) (w : World) (q : Text) {w' : World}
    → ¬ In q (dests items)
    → download_all items interactive w ≡ (ok tt, w')
    → lookup q w'.disk ≡ lookup q w.disk
unfolding download_all
download_all-others [] interactive w q other h =
    ap (λ (r : Result (Unit {0}) × World). lookup q r.1.disk) (sym h)
download_all-others (item ∷ items) interactive w q other h =
    let (u, w1, e, k) = M-eq-ok (download_file item.url item.dest interactive) _ w h in
    let (body, m, served, there, others, net) =
      download_file-fetched item.url item.dest interactive w e in
    download_all-others items interactive w1 q (λ i. other (inr i)) k
    ∙ others q (λ same. other (inl same))

-- When the files of a network are downloaded without an error, to paths that are all different, each
-- stands at its path with the text that the server answers, and every other path is as it was.
pub download_all-IsFetched :
    (items : List DownloadItem) (interactive : Bool) (w : World) {w' : World}
    → Nodup (dests items)
    → download_all items interactive w ≡ (ok tt, w')
    → All (IsFetched w w') items
      × ((q : Text) → ¬ In q (dests items) → lookup q w'.disk ≡ lookup q w.disk)
unfolding download_all
download_all-IsFetched items interactive w {w'} distinct h =
    (each items w distinct h, λ q other. download_all-others items interactive w q other h)
  where
    each :
        (rest : List DownloadItem) (v : World)
        → Nodup (dests rest)
        → download_all rest interactive v ≡ (ok tt, w')
        → All (IsFetched v w') rest
    each [] v n k = tt
    each (item ∷ rest) v n k =
        let (u, v1, e, k') = M-eq-ok (download_file item.url item.dest interactive) _ v k in
        let (body, m, served, there, others, net) =
          download_file-fetched item.url item.dest interactive v e in
        (
          (body, m, served, download_all-others rest interactive v1 item.dest n.0 k' ∙ there),
          subst
              (λ (f : Text → Option Text).
                All
                  (λ i.
                    (b : Text) × (m' : ℕ) × (f i.url ≡ some b)
                    × (lookup i.dest w'.disk ≡ some (file m' b)))
                  rest)
              net (each rest v1 n.1 k'),
        )
