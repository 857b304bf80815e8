-- ===== src/Tests/Topologies.antt =====
-- Runs of the topology tree.
use fms.Base.{ℕ, ◌^◌, ◌≡◌, refl, ◌↔◌, none, some, List, [], ◌∷◌}
use fms.Topology.{
  TopoCpu, has_child, change_child, put, new_thread, add_thread, add_core, add_chip, boards,
  fill_chassis, add_cpu, traverse_cpus,
}
use fms.Topology.Node.{Any}
use fms.Topology.Cpus.{InChassis, IsAt, IsTree}
use fms.Topology.Refines.{traverse_cpus-refines}
use fms.Topology.Devices.{TopoPci, TopoMem}

abbrev cpu_at : ℕ → ℕ → ℕ → TopoCpu
cpu_at socket core processor = record {
  processor = processor;
  flag = 0;
  cpu_thread = 0;
  cpu_chassis = 0;
  cpu_board = 0;
  cpu_socket = socket;
  cpu_core = core;
}

abbrev cpus : List TopoCpu
cpus = cpu_at 0 0 0 ∷ cpu_at 0 0 4 ∷ cpu_at 1 0 1 ∷ []

abbrev bridge : TopoPci
bridge = record {
  pci_chassis = 0;
  pci_hostbridge = 0;
  pci_slot = 28;
  pci_func = 0;
  pci_subdomain = 0;
  pci_subbus = 2;
  pci_subslot = 0;
  pci_subfunc = 0;
  pci_topoclass = 1;
  pci_name = none;
  dev_icon = none;
}

abbrev module_at : ℕ → TopoMem
module_at socket = record {
  start = 0;
  end = 2 ^ 32;
  mem_chassis = 0;
  mem_socket = socket;
  mem_controller = 0;
  mem_dimm = 0;
}

tree_runs :
    traverse_cpus cpus []
    ≡ (record {
      tn_value = 0;
      mb = some (record {
        tn_value = 0;
        chip_head =
            (record {
              tn_value = 1;
              core_head =
                  (record { tn_value = 0; ht_head = (record { tn_value = 1; tn_state = 8 }) ∷ [] })
                  ∷ [];
              mctl_head = [];
            })
            ∷ (record {
              tn_value = 0;
              core_head =
                  (record {
                    tn_value = 0;
                    ht_head =
                        (record { tn_value = 4; tn_state = 4 })
                        ∷ (record { tn_value = 0; tn_state = 8 })
                        ∷ [];
                  })
                  ∷ [];
              mctl_head = [];
            })
            ∷ [];
        hb_head = [];
      });
      sb = some 1;
    })
      ∷ []
unfolding traverse_cpus add_cpu fill_chassis boards add_chip add_core add_thread new_thread put
    change_child has_child
tree_runs = refl

traverse_cpus-refines_example :
    IsTree (traverse_cpus cpus [])
    × ((chassis socket core thread : ℕ)
        → Any (InChassis chassis socket core thread) (traverse_cpus cpus [])
          ↔ Any (IsAt chassis socket core thread) cpus)
traverse_cpus-refines_example = traverse_cpus-refines cpus
