-- ===== src/Runs/Boots.antt =====
-- Boots of the accepted topology, on a host that grants every port and on one that does not.
use go_smsc_simulator.Common.{pos, ◌≡◌, refl, true, [], ◌∷◌, ◌++◌, map, eq_int, not, ok}
use go_smsc_simulator.Smsc.Create.{new_virtual_smsc}
use go_smsc_simulator.Smsc.Boot.{Platform, boot}
use go_smsc_simulator.Smsc.Boot.Ports.{ports_of, surface_port, AllOrNothing, boot-AllOrNothing}
use go_smsc_simulator.Smsc.Boot.Accepted.{boot_accepted}
use go_smsc_simulator.Runs.Scenarios.{counting}
use go_smsc_simulator.Runs.Configs.{host, topology, topology_accepted}

abbrev generous : Platform
generous = record { loads_key_pair = λ c k. true; generates = true; grants = λ p. true }

abbrev busy : Platform
busy = record {
  loads_key_pair = λ c k. true;
  generates = true;
  grants = λ p. not (eq_int p (pos 2776));
}

boot-AllOrNothing_example :
    AllOrNothing
      (map new_virtual_smsc topology.virtual_smscs)
      (ports_of topology.virtual_smscs ++ surface_port topology.observability)
      (boot counting host busy topology)
boot-AllOrNothing_example = boot-AllOrNothing counting host busy topology

boot_accepted_example :
    boot counting host generous topology
    ≡ (ok (map new_virtual_smsc topology.virtual_smscs), pos 2775 ∷ pos 2776 ∷ pos 8080 ∷ [])
boot_accepted_example =
    boot_accepted counting host generous topology topology_accepted (refl, (refl, tt))
      (refl, (refl, tt)) (refl, tt)
