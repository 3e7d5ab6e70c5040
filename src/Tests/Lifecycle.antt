-- ===== src/Tests/Lifecycle.antt =====
-- A device with one module that fails (cmds/dutagent/lifecycle.go).
use dutctl.Base.{false, [], ◌∷◌}
use dutctl.Dut.{Devlist, Module}

abbrev module_ : Module
module_ = record { config = record { name = "gpio"; passthrough = false; args = [] }; help = "" }

abbrev devices : Devlist
devices =
    (
      "rpi",
      record {
        desc = "";
        cmds = ("reset", record { desc = ""; args = []; modules = module_ ∷ module_ ∷ [] }) ∷ [];
      },
    )
    ∷ []
