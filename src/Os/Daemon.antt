-- ===== src/Os/Daemon.antt =====
-- The Docker daemon as its client sees it: calls, and what is answered.
use mathlib.Core.List.{List}
use mathlib.Core.Bool.{Bool}
use mathlib.Core.Option.{Option}
use botcoin.Base.{Text}

-- What one path becomes in an archive: its name, and its content if it is a file.
pub record ArchiveEntry : Type 0 where
  pub name : Text
  pub body : Option Text

-- The calls by which a daemon tells or changes what it has.
pub data DockerCall : Type 0 where
  -- the connection
  client : DockerCall
  network_list container_list : DockerCall
  -- a name, a subnet, a range and a gateway
  network_create : Text → Text → Text → Text → DockerCall
  network_remove : Text → DockerCall
  image_list : DockerCall
  image_pull : Text → DockerCall
  -- an image, a name and a command
  container_create : Text → Text → List Text → DockerCall
  container_start container_stop : Text → DockerCall
  -- whether by force, with links, with volumes
  container_remove : Text → Bool → Bool → Bool → DockerCall
  -- a network, a container and an address
  network_connect : Text → Text → Text → DockerCall
  -- a container, the path in it, and the archive that is sent
  copy_to_container : Text → Text → List ArchiveEntry → DockerCall

-- An error, nothing, an identifier, or identifiers with the names of what they stand for.
pub data DockerAnswer : Type 0 where
  refused done : DockerAnswer
  created : Text → DockerAnswer
  listed : List (List Text × Text) → DockerAnswer

-- The answer to a call after the calls before it, the latest first.
abbrev pub Daemon : Type 0
Daemon = List DockerCall → DockerCall → DockerAnswer

abbrev pub no_daemon : Daemon
no_daemon calls c = DockerAnswer.refused
