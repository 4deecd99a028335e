-- ===== src/RelayWireguard/Cleanup.antt =====
-- pkg/relay/wireguard.go: what a connection that fails and a connection that is torn down leave.

use cloudbridge_client.Prelude.{
  ◌≡◌, arith, ◌⊎◌, inl, inr, true, false, Option, none, some, List, ◌∷◌, Option-cases, Bool-cases,
}
use cloudbridge_client.RelayWireguard.{
  Command, show_link, add_link, del_link, link_up, link_down, System, Manager, Error, run,
  not_created, not_up, configure_interface, set_up, connect, tear_down, remove_peers,
}

module _ (sys : System) where
  configure_keeps : (m : Manager) → (configure_interface sys m).1.connected ≡ m.connected
  unfolding configure_interface
  configure_keeps m = ground arith

  -- An error, not connected, and either the last command was to add the interface, and it failed, or it
  -- was to delete it.
  abbrev pub Fails : Option Error × Manager → Type 0
  Fails r =
      (e : Error) × (r.0 ≡ some e)
      × (r.1.connected ≡ false)
      × ((log : List Command) × (((r.1.log ≡ add_link ∷ log) × (sys.works log add_link ≡ false))
            ⊎ (r.1.log ≡ del_link ∷ log)))

  -- The last command brought the interface up.
  abbrev pub IsUp : Option Error × Manager → Type 0
  IsUp r =
      (r.0 ≡ none)
      × (r.1.connected ≡ true)
      × ((log : List Command) × (r.1.log ≡ link_up ∷ log) × (sys.works log link_up ≡ true))

  set_up_ends : (m : Manager) → m.connected ≡ false → IsUp (set_up sys m) ⊎ Fails (set_up sys m)
  unfolding set_up
  set_up_ends m off =
      let m1 = (run sys add_link m).1 in
      let m2 = (configure_interface sys m1).1 in
      let kept = configure_keeps m1 in
      elim (Bool-cases (sys.works m.log add_link)) [
        | inr none_made ↦
            inr (not_created, ground arith, ground arith, (m.log, inl (ground arith, none_made)))
        | inl created ↦ elim (Option-cases (configure_interface sys m1).0) [
          | inr (e, bad) ↦ inr (e, ground arith, ground arith, (m2.log, inr (ground arith)))
          | inl fine ↦ elim (Bool-cases (sys.works m2.log link_up)) [
            | inl up ↦ inl (ground arith, ground arith, (m2.log, ground arith, up))
            | inr down ↦
                inr (not_up, ground arith, ground arith, (link_up ∷ m2.log, inr (ground arith)))
          ]
        ]
      ]

  -- A manager that was connected and stays as it is; one that finds the interface; or one that set it up.
  abbrev pub IsClean : Manager → Option Error × Manager → Type 0
  IsClean m r =
      ((m.connected ≡ true) × (r.0 ≡ none) × (r.1 ≡ m))
      ⊎ (((sys.works m.log show_link ≡ true)
            × (r.0 ≡ none)
            × (r.1.connected ≡ true)
            × (r.1.log ≡ show_link ∷ m.log))
          ⊎ (IsUp r ⊎ Fails r))

  -- How `Connect` ends: the manager was connected and stays as it is; or the interface is there and is
  -- taken for a connection; or the last command brought it up, and the manager is connected; or with an
  -- error and not connected, where the last command was to add the interface and failed, or was to delete
  -- it.
  pub connect-IsClean : (m : Manager) → IsClean m (connect sys m)
  unfolding connect
  connect-IsClean m = elim (Bool-cases m.connected) [
    | inl on ↦ inl (on, ground arith, ground arith)
    | inr off ↦ elim (Bool-cases (sys.works m.log show_link)) [
      | inl there ↦ inr (inl (there, ground arith, ground arith, ground arith))
      | inr gone ↦
          let m1 = (run sys show_link m).1 in
          let same : connect sys m ≡ set_up sys m1 = simp (connect, off, gone) in
          rw same (inr (inr (set_up_ends m1 off)))
    ]
  ]

  -- After a `TearDown` whose deletion of the interface fails, a `Connect` that finds the interface reports
  -- success with the interface still taken down: after `link_down` nothing brings it up.
  reused_while_down :
      (m : Manager)
      → m.connected ≡ true
      → sys.works (tear_down sys m).log show_link ≡ true
      → ((connect sys (tear_down sys m)).0 ≡ none)
        × ((connect sys (tear_down sys m)).1.connected ≡ true)
        × ((connect sys (tear_down sys m)).1.log
            ≡ show_link ∷ del_link ∷ link_down ∷ (remove_peers sys m).log)
  unfolding connect tear_down
  reused_while_down m up there = ground arith
