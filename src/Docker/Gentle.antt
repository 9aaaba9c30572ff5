-- ===== src/Docker/Gentle.antt =====
-- Stopping without force.
use botcoin.Base.{Text, false, Option, none, some, [], ◌∷◌}
use botcoin.Base.Dict.{Dict, lookup}
use botcoin.Os.{
  World, DockerCall, client, network_list, container_list, network_remove, container_stop,
  container_remove,
}
use botcoin.Docker.{
  call, as_done, as_listed, get_docker_client, get_networks, get_containers, stop_container,
  remove_network, halt_container, halt_containers, stop_found, stop_network,
}
use botcoin.Docker.Trace.{Calls, Only, Only-refl, call-Calls, bind-Calls}

-- What `StopNetwork` and `StopNode` may ask for without force.
abbrev pub IsGentle : DockerCall → Type 0
IsGentle (container_remove id force links volumes) = ⊥
IsGentle _ = Unit

halt_container-IsGentle : (id : Text) → Calls IsGentle (halt_container false id)
unfolding halt_container stop_container
halt_container-IsGentle id =
    bind-Calls IsGentle (call as_done (container_stop id)) _
      (call-Calls IsGentle as_done (container_stop id) tt) (λ u. Only-refl IsGentle)

halt_containers-IsGentle : (cons : Dict Text) → Calls IsGentle (halt_containers false cons)
unfolding halt_containers
halt_containers-IsGentle [] = Only-refl IsGentle
halt_containers-IsGentle ((name, id) ∷ cons) =
    bind-Calls IsGentle (halt_container false id) _ (halt_container-IsGentle id)
      (λ u. halt_containers-IsGentle cons)

get_networks-IsGentle : Calls IsGentle get_networks
unfolding get_networks
get_networks-IsGentle =
    bind-Calls IsGentle (call as_listed network_list) _
      (call-Calls IsGentle as_listed network_list tt) (λ l. Only-refl IsGentle)

get_containers-IsGentle : Calls IsGentle get_containers
unfolding get_containers
get_containers-IsGentle =
    bind-Calls IsGentle (call as_listed container_list) _
      (call-Calls IsGentle as_listed container_list tt) (λ l. Only-refl IsGentle)

stop_found-IsGentle :
    (range : Dict Text → Dict Text) (o : Option Text) → Calls IsGentle (stop_found range o false)
unfolding remove_network
stop_found-IsGentle range none = Only-refl IsGentle
stop_found-IsGentle range (some id) =
    bind-Calls IsGentle get_containers _ get_containers-IsGentle (λ cons.
      bind-Calls IsGentle (halt_containers false (range cons)) _
        (halt_containers-IsGentle (range cons))
        (λ u.
          bind-Calls IsGentle (call as_done (network_remove id)) _
            (call-Calls IsGentle as_done (network_remove id) tt)
            (λ v.
              bind-Calls IsGentle get_networks _ get_networks-IsGentle
                (λ nets. Only-refl IsGentle))))

-- Without force, stopping a network removes no container, whatever its outcome, and leaves the disk as it was.
pub stop_network-IsGentle :
    (range : Dict Text → Dict Text) (name : Text) (w : World)
    → Only IsGentle w (stop_network range name false w).1
unfolding stop_network get_docker_client
stop_network-IsGentle range name =
    bind-Calls IsGentle (call as_done client) _ (call-Calls IsGentle as_done client tt) (λ u.
      bind-Calls IsGentle get_networks _ get_networks-IsGentle
        (λ nets. stop_found-IsGentle range (lookup name nets)))
