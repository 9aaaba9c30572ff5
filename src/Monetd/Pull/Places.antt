-- ===== src/Monetd/Pull/Places.antt =====
-- The places of a configuration that `monetd config pull` writes are all different.
use botcoin.Base.{Text, ◌≢◌, refl, inl, inr, [], ◌∷◌, In, text_discrete}
use botcoin.Base.Bytes.{text, split, join}
use botcoin.Base.Bytes.Path.{join_path, clean, clean_step}
use botcoin.Base.Bytes.Path.Joined.{
  EndsWith, EndsWith-ne, join_path-EndsWith, join_path_below-EndsWith, join_path_element-EndsWith,
  IsElement,
}
use botcoin.Genesis.Storage.Layout.{Nodup}
use botcoin.Monetd.Dumped.{
  priv_key-IsElement, peers-IsElement, genesis_peers-IsElement, genesis-IsElement, toml-IsElement,
}
use botcoin.Monetd.Pull.{pulled}
use botcoin.Monetd.Pull.Fetched.{dests}

eth-IsElement : IsElement (text "eth")
unfolding split clean_step text_discrete
eth-IsElement = (refl, λ rooted stack. refl)

module _ (dir : Text) where
  abbrev pub priv_key_path : Text
  priv_key_path = join_path (join_path (dir ∷ text "babble" ∷ []) ∷ text "priv_key" ∷ [])

  abbrev pub toml_path : Text
  toml_path = join_path (dir ∷ text "monetd.toml" ∷ [])

  priv_key-EndsWith : EndsWith priv_key_path (text "priv_key")
  priv_key-EndsWith = join_path-EndsWith _ _ (λ e. cc) priv_key-IsElement

  pub toml-EndsWith : EndsWith toml_path (text "monetd.toml")
  toml-EndsWith = join_path-EndsWith dir _ (λ e. cc) toml-IsElement

  pub genesis_peers-EndsWith :
      EndsWith
        (join_path (dir ∷ text "babble" ∷ text "peers.genesis.json" ∷ []))
        (text "peers.genesis.json")
  genesis_peers-EndsWith =
      join_path_below-EndsWith dir _ _ (λ e. cc) (λ e. cc) genesis_peers-IsElement

  pub peers-EndsWith :
      EndsWith (join_path (dir ∷ text "babble" ∷ text "peers.json" ∷ [])) (text "peers.json")
  peers-EndsWith = join_path_below-EndsWith dir _ _ (λ e. cc) (λ e. cc) peers-IsElement

  pub genesis-EndsWith :
      EndsWith (join_path (dir ∷ text "eth" ∷ text "genesis.json" ∷ [])) (text "eth/genesis.json")
  unfolding join_path join split clean clean_step text_discrete
  genesis-EndsWith = at_eth dir
    where
      at_eth :
          (d : Text)
          → EndsWith
              (join_path (d ∷ text "eth" ∷ text "genesis.json" ∷ []))
              (text "eth/genesis.json")
      at_eth [] = ([], refl)
      at_eth (c ∷ d) = join_path_element-EndsWith c d _ _ _ eth-IsElement genesis-IsElement

  pub toml-ne : priv_key_path ≢ toml_path
  toml-ne = EndsWith-ne _ _ _ _ priv_key-EndsWith toml-EndsWith refl

  module _ (peer_addr : Text) where
    pub pulled-Nodup : Nodup (dests (pulled peer_addr dir))
    unfolding pulled
    pulled-Nodup = (not_first, (not_second, ((λ i. i), tt)))
      where
        not_first : ¬ In (join_path (dir ∷ text "babble" ∷ text "peers.genesis.json" ∷ [])) (
            join_path (dir ∷ text "babble" ∷ text "peers.json" ∷ [])
            ∷ join_path (dir ∷ text "eth" ∷ text "genesis.json" ∷ [])
            ∷ [])
        not_first (inl e) = EndsWith-ne _ _ _ _ genesis_peers-EndsWith peers-EndsWith refl e
        not_first (inr (inl e)) = EndsWith-ne _ _ _ _ genesis_peers-EndsWith genesis-EndsWith refl e
        not_first (inr (inr i)) = i

        not_second :
            ¬ In
              (join_path (dir ∷ text "babble" ∷ text "peers.json" ∷ []))
              (join_path (dir ∷ text "eth" ∷ text "genesis.json" ∷ []) ∷ [])
        not_second (inl e) = EndsWith-ne _ _ _ _ peers-EndsWith genesis-EndsWith refl e
        not_second (inr i) = i

    pub priv_key-other : ¬ In priv_key_path (dests (pulled peer_addr dir))
    unfolding pulled
    priv_key-other (inl e) = EndsWith-ne _ _ _ _ priv_key-EndsWith genesis_peers-EndsWith refl e
    priv_key-other (inr (inl e)) = EndsWith-ne _ _ _ _ priv_key-EndsWith peers-EndsWith refl e
    priv_key-other (inr (inr (inl e))) =
        EndsWith-ne _ _ _ _ priv_key-EndsWith genesis-EndsWith refl e
    priv_key-other (inr (inr (inr i))) = i
