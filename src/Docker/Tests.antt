-- ===== src/Docker/Tests.antt =====
-- A daemon with one network and two containers, the second without a name.
use botcoin.Base.{In, Text, ◌≡◌, refl, true, false, none, some, List, [], ◌∷◌, text_discrete}
use botcoin.Base.Dict.{Dict, lookup, insert}
use botcoin.Base.Bytes.{text, trim_left, has_prefix}
use botcoin.Base.Result.{ok}
use botcoin.Os.{
  World, DockerCall, client, network_list, container_list, network_create, network_remove,
  DockerAnswer, done, created, listed,
}
use botcoin.Docker.Archive.{header_name}
use botcoin.Docker.Names.{header_name-repeated}
use botcoin.Docker.{
  network_names, container_names, get_networks, get_containers, get_docker_client, halt_container,
  halt_containers, stop_container, remove_container, remove_network, stop_network,
}
use botcoin.Docker.Stopping.{after, halt_calls, IsRange, stop_network-calls}
use botcoin.Docker.Listed.{network_in, container_in, IsListed, Once}

abbrev nets : List (List Text × Text)
nets = (text "net" ∷ [], text "n1") ∷ []

abbrev cons : List (List Text × Text)
cons = (text "/node0" ∷ [], text "c1") ∷ ([], text "c2") ∷ []

abbrev answers : List DockerCall → DockerCall → DockerAnswer
answers calls network_list = listed nets
answers calls container_list = listed cons
answers calls (network_create name subnet ip_range gateway) = created (text "n2")
answers calls _ = done

abbrev world : World
world = record {
  disk = [];
  stdin = [];
  fault = λ c p. false;
  net = λ u. none;
  daemon = answers;
  calls = [];
}

abbrev same_order : Dict Text → Dict Text
same_order d = d

abbrev stopped : World
stopped = (stop_network same_order (text "net") true world).1

stop_run : stop_network same_order (text "net") true world ≡ (ok tt, stopped)
unfolding stop_network get_docker_client get_networks get_containers network_names container_names
    trim_left lookup insert text_discrete halt_containers halt_container stop_container
    remove_container remove_network
stop_run = refl

same_order-IsRange : IsRange same_order
same_order-IsRange = record { each = λ k v d i. i; only = λ k v d i. i; once = λ d h. h }

stop_network-calls_example :
    (ns : List (List Text × Text)) × (id : Text) × (cs : List (List Text × Text)) × (halted : Dict
      Text)
    × (answers (client ∷ []) network_list ≡ listed ns)
    × (network_in (text "net") ns ≡ some id)
    × (answers (network_list ∷ client ∷ []) container_list ≡ listed cs)
    × ((k c : Text) → In (k, c) halted → IsListed k c cs)
    × ((k c : Text) → container_in k cs ≡ some c → In (k, c) halted)
    × Once halted
    × (stopped.calls
        ≡ network_list
          ∷ network_remove id
          ∷ after (halt_calls true halted) (container_list ∷ network_list ∷ client ∷ []))
stop_network-calls_example =
    stop_network-calls same_order (text "net") true world same_order-IsRange stop_run

header_name-repeated_example :
    header_name (text "/a") (text "/a/b/a/c") ≡ header_name (text "/a") (text "/a/b/c")
unfolding has_prefix
header_name-repeated_example =
    header_name-repeated b'/' (text "a") (text "/b") (text "/c") (refl, (refl, tt))
      (refl, (refl, tt)) (refl, (refl, tt))
