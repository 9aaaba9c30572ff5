-- ===== src/Docker.antt =====
-- src/docker: the networks and the containers that giverny drives. What is printed is left out, and
-- so are logs and copies from a container, which nothing calls.
pub mod Archive
pub mod Packing
pub mod Names
pub mod Listed
pub mod Trace
pub mod Stopping
pub mod Gentle
pub mod Creating
mod Tests
use botcoin.Base.{
  Text, Bool, true, false, not, Option, none, some, List, [], ◌∷◌, ◌++◌, ◌==◌, nat_eq,
  if◌then◌else◌,
}
use botcoin.Base.Bytes.{text, trim_left}
use botcoin.Base.Dict.{Dict, insert, lookup}
use botcoin.Base.Result.{Error, Result, ok, err}
use botcoin.Docker.Archive.{new_tar_archive_from_path}
use botcoin.Os.{
  World, M, pure, throw, ◌>>=◌, ◌>>◌, DockerCall, client, network_list, container_list,
  network_create, network_remove, image_list, image_pull, container_create, container_start,
  container_stop, container_remove, network_connect, copy_to_container, DockerAnswer, refused, done,
  created, listed,
}

abbrev pub as_done : DockerAnswer → Result (Unit {0})
as_done refused = err Error.docker
as_done _ = ok tt

abbrev pub as_created : DockerAnswer → Result Text
as_created (created id) = ok id
as_created _ = err Error.docker

abbrev pub as_listed : DockerAnswer → Result (List (List Text × Text))
as_listed (listed l) = ok l
as_listed _ = err Error.docker

-- A call, whose answer is read as it should be.
abbrev pub call : {A : Type 0} → (DockerAnswer → Result A) → DockerCall → M A
call read c w = (read (w.daemon w.calls c), record w { calls = c ∷ w.calls })

unfoldable pub get_docker_client : M (Unit {0})
get_docker_client = call as_done client

-- Each network by its name.
unfoldable pub network_names : List (List Text × Text) → Dict Text → Dict Text
network_names [] nets = nets
network_names (([], id) ∷ l) nets = network_names l nets
network_names ((name ∷ names, id) ∷ l) nets = network_names l (insert name id nets)

unfoldable pub get_networks : M (Dict Text)
unfolding network_names
get_networks = do l ← call as_listed network_list; pure (network_names l [])

-- The first name, without the slashes in front; a container without a name is passed over.
unfoldable pub container_names : List (List Text × Text) → Dict Text → Dict Text
container_names [] cons = cons
container_names (([], id) ∷ l) cons = container_names l cons
container_names ((name ∷ names, id) ∷ l) cons =
    container_names l (insert (trim_left (λ c. c == b'/') name) id cons)

unfoldable pub get_containers : M (Dict Text)
unfolding container_names
get_containers = do l ← call as_listed container_list; pure (container_names l [])

-- Every tag with the identifier of its image.
abbrev tag_image : List Text → Text → Dict Text → Dict Text
tag_image [] id images = images
tag_image (tag ∷ tags) id images = tag_image tags id (insert tag id images)

unfoldable pub image_tags : List (List Text × Text) → Dict Text → Dict Text
image_tags [] images = images
image_tags ((tags, id) ∷ l) images = image_tags l (tag_image tags id images)

unfoldable pub get_images : M (Dict Text)
unfolding image_tags
get_images = do l ← call as_listed image_list; pure (image_tags l [])

unfoldable pub create_network : Text → Text → Text → Text → M Text
create_network name subnet ip_range gateway =
    call as_created (network_create name subnet ip_range gateway)

unfoldable pub remove_network : Text → M (Unit {0})
remove_network id = call as_done (network_remove id)

-- The network of this name, if there is one, is used, makes the call fail, or is removed first.
abbrev pub safe_create : Option Text → Text → Text → Text → Text → Bool → Bool → M Text
safe_create none name subnet ip_range gateway force use_existing =
    create_network name subnet ip_range gateway
safe_create (some id) name subnet ip_range gateway force true = pure id
safe_create (some id) name subnet ip_range gateway false false = throw Error.docker_network_exists
safe_create (some id) name subnet ip_range gateway true false = do
  remove_network id
  create_network name subnet ip_range gateway

unfoldable pub safe_create_network : Text → Text → Text → Text → Bool → Bool → M Text
safe_create_network name subnet ip_range gateway force use_existing = do
  nets ← get_networks
  safe_create (lookup name nets) name subnet ip_range gateway force use_existing

abbrev pub when : Bool → M (Unit {0}) → M (Unit {0})
when c m w = if c then m w else (ok tt, w)

-- The container that is returned has been created; it is started if that is asked for.
unfoldable pub create_container_from_image : Text → Bool → Text → List Text → Bool → M Text
create_container_from_image image is_remote name cmd start = do
  when is_remote (call as_done (image_pull image))
  id ← call as_created (container_create image name cmd)
  when start (call as_done (container_start id))
  pure id

unfoldable pub start_container : Text → M (Unit {0})
start_container id = call as_done (container_start id)

unfoldable pub stop_container : Text → M (Unit {0})
stop_container id = call as_done (container_stop id)

unfoldable pub remove_container : Text → Bool → Bool → Bool → M (Unit {0})
remove_container id force links volumes = call as_done (container_remove id force links volumes)

unfoldable pub connect_container_to_network : Text → Text → Text → M (Unit {0})
connect_container_to_network network id ip = call as_done (network_connect network id ip)

-- `CopyToContainer`
unfoldable pub copy_to : Text → Text → Text → M (Unit {0})
copy_to id src dest = do
  archive ← new_tar_archive_from_path src
  call as_done (copy_to_container id dest archive)

-- One container, stopped and, by force, removed.
unfoldable pub halt_container : Bool → Text → M (Unit {0})
halt_container force id = do stop_container id; when force (remove_container id true false false)

-- The loop over the containers, in the order in which they are given.
unfoldable pub halt_containers : Bool → Dict Text → M (Unit {0})
halt_containers force [] = pure tt
halt_containers force ((name, id) ∷ cons) = do halt_container force id; halt_containers force cons

-- `range` is the order in which Go goes over the map of containers.
abbrev pub stop_found : (Dict Text → Dict Text) → Option Text → Bool → M (Unit {0})
stop_found range none force = throw Error.docker_network_missing
stop_found range (some id) force = do
  cons ← get_containers
  halt_containers force (range cons)
  remove_network id
  nets ← get_networks
  pure tt

-- `StopNetwork` goes over all the containers of the daemon, whatever network they are on.
unfoldable pub stop_network : (Dict Text → Dict Text) → Text → Bool → M (Unit {0})
stop_network range name force = do
  get_docker_client
  nets ← get_networks
  stop_found range (lookup name nets) force

abbrev pub halt_found : Option Text → Bool → M (Unit {0})
halt_found none force = throw Error.container_missing
halt_found (some id) force = halt_container force id

unfoldable pub stop_node : Text → Text → Bool → M (Unit {0})
stop_node network name force = do
  get_docker_client
  cons ← get_containers
  halt_found (lookup name cons) force
