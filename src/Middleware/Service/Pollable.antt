-- ===== src/Middleware/Service/Pollable.antt =====
-- The configuration rules and the block planning together.
use ygate_git.Base.{◌≡◌, ok, ◌>>=◌, List}
use ygate_git.Base.Text.{Text}
use ygate_git.Middleware.Float64.{Float64}
use ygate_git.Middleware.Domain.{Address, DeviceSet}
use ygate_git.Middleware.Profile.Blocks.{Block, build_blocks}
use ygate_git.Middleware.Service.{profile_of}

module _ (fl : Float64) where
  open fl use {F}

  -- The blocks of a device set can be built.
  abbrev pub CanBuild : DeviceSet F → Type 0
  CanBuild set = (blocks : List (Block F)) × (build_blocks (profile_of set) ≡ ok blocks)
