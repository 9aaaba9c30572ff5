-- ===== src/Network/Push/Tests.antt =====
-- A network of one node, its files made, on a daemon that has the network and no container.
use botcoin.Base.{Text, ◌≡◌, refl, false, none, some, List, [], ◌∷◌, ◌++◌, text_eq, text_discrete}
use botcoin.Base.Dict.{lookup, insert}
use botcoin.Base.Bytes.{text, has_prefix, split, trim_prefix}
use botcoin.Base.Bytes.Path.{join_path}
use botcoin.Base.Result.{ok}
use botcoin.Os.{
  World, directory, file, status, read_file, open_path, text_leb, DockerCall, client, network_list,
  container_list, container_create, DockerAnswer, done, created, listed,
}
use botcoin.Files.{check_if_exists}
use botcoin.Docker.Archive.{new_tar_archive_from_path, pack_path, header_name}
use botcoin.Docker.{
  get_docker_client, get_networks, get_containers, network_names, container_names,
  create_container_from_image, start_container, connect_container_to_network, copy_to,
}
use botcoin.Network.Toml.{NodeToml}
use botcoin.Network.Push.{push_docker_node, push_container}
use botcoin.Network.Push.Calls.{Pushed, push_docker_node-Pushed}

abbrev toml : NodeToml
toml = record {
  unmarshal = λ s. none;
  marshal_node = λ n. some n.net_addr;
  unmarshal_node = λ s. record { moniker = []; net_addr = s };
  Tree = Text;
  load = λ s. some s;
  set_listen = λ l t. l;
  to_toml = λ t. some t;
}

abbrev answers : List DockerCall → DockerCall → DockerAnswer
answers calls network_list = listed ((text "net" ∷ [], text "n1") ∷ [])
answers calls container_list = listed []
answers calls (container_create name image command) = created (text "c1")
answers calls _ = done

abbrev pushing : World
pushing = record {
  disk =
      (text "/g/networks/net/docker", directory)
      ∷ (text "/g/networks/net/docker/node0", directory)
      ∷ (text "/g/networks/net/docker/node0/.monet", directory)
      ∷ (text "/g/networks/net/docker/node0/.monet/priv_key", file 0o600 (text "7"))
      ∷ (text "/g/networks/net/docker/node0.toml", file 0o600 (text "10.0.0.1"))
      ∷ [];
  stdin = [];
  fault = λ c p. false;
  net = λ u. none;
  daemon = answers;
  calls = [];
}

abbrev pushed : World
pushed =
    (push_docker_node toml (text "/g") (text "net") (text "node0") (text "monetd") false pushing).1

push_run :
    push_docker_node toml (text "/g") (text "net") (text "node0") (text "monetd") false pushing
    ≡ (ok tt, pushed)
unfolding push_docker_node join_path check_if_exists status read_file get_docker_client get_networks
    network_names get_containers container_names push_container create_container_from_image
    start_container connect_container_to_network copy_to new_tar_archive_from_path pack_path
    header_name open_path text_leb has_prefix split trim_prefix lookup insert text_discrete
push_run = refl

-- What has been sent.
sent_run :
    (new_tar_archive_from_path (text "/g/networks/net/docker/node0") pushing).0
    ≡ ok (
        record { name = []; body = none }
        ∷ record { name = text ".monet"; body = none }
        ∷ record { name = text ".monet/priv_key"; body = some (text "7") }
        ∷ [])
unfolding new_tar_archive_from_path pack_path header_name open_path read_file text_leb has_prefix
    split trim_prefix lookup text_discrete
sent_run = refl

push_docker_node-Pushed_example :
    let docker_path = join_path (text "/g" ∷ text "networks" ∷ text "net" ∷ text "docker" ∷ []) in
    (content : Text) × (read_file
        (join_path (docker_path ∷ (text "node0" ++ text ".toml") ∷ []))
        pushing
      ≡ (ok content, pushing))
    × Pushed
        (text "net")
        (text "node0")
        content
        (text "monetd")
        false
        (join_path (docker_path ∷ text "node0" ∷ []))
        (record pushing { calls = client ∷ [] })
        pushed
push_docker_node-Pushed_example =
    push_docker_node-Pushed toml (text "/g") (text "net") (text "node0") (text "monetd") false
      pushing push_run
