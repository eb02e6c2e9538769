-- ===== src/Middleware/Tests/Serving.antt =====
-- The gateway's service at concrete inputs.
use mathlib.Core.List.{foldl, Perm}
use ygate_git.Base.{false, ◌≡◌, refl, true, false, Option, some, ok, List, [], ◌∷◌, length, keep}
use ygate_git.Base.Int.{ℤ, pos}
use ygate_git.Base.Text.{lit, equal_fold}
use ygate_git.Middleware.Domain.{Reading}
use ygate_git.Middleware.Profile.Blocks.{Block, build_blocks}
use ygate_git.Middleware.Profile.Blocks.Laws.{read_order}
use ygate_git.Middleware.Modbus.Frames.{device}
use ygate_git.Middleware.Service.{World}
use ygate_git.Middleware.Service.Poll.{poll_blocks}
use ygate_git.Middleware.Service.Idle.{Idle, EnqueuedReading, values_hash, device_key}
use ygate_git.Middleware.Service.Device.{measure, network, poll_blocks-device}
use ygate_git.Middleware.Service.Sweep.{
  Gate, Sweep, Times, Messages, IsCounted, is_enabled, poll_enabled_connections,
  poll_enabled_connections_lem,
}
use ygate_git.Middleware.Domain.{ConnectionConfig}
use ygate_git.Middleware.Profile.Address.{one_of}
use ygate_git.Middleware.Service.{register_of}
use ygate_git.Middleware.Service.SwappedWords.{swapped_types, LosesSwap, register_of-swap_words}
use ygate_git.Middleware.Tests.Data.{
  power, floats, two_registers, plant_connection, no_settings, empty_store,
}
use ygate_git.Middleware.Tests.Reading.{
  two_entries, two_registers-resolve, own_addresses, new_client,
}

poll_blocks-device_example :
    (blocks : List (Block (Option ℤ))) × (build_blocks two_registers ≡ ok blocks)
    × Perm (read_order blocks) two_entries
    × ((poll_blocks floats
          (network floats own_addresses [] plant_connection)
          plant_connection
          two_registers
          new_client
          blocks).samples
        ≡ foldl (measure floats own_addresses (lit "HIGH_LOW")) [] (read_order blocks))
unfolding equal_fold
poll_blocks-device_example =
    poll_blocks-device floats own_addresses [] plant_connection two_registers two_entries new_client
      refl two_registers-resolve

abbrev idle : Idle
idle = record { last_enqueued = []; idle_heartbeat = pos 0 }

-- JSON and SHA-256 are stood in for by constants and the identity.
abbrev world : World (Option ℤ)
world = record {
  network = λ _ _. device own_addresses [];
  saves = λ _. true;
  parse_int = λ _. some (pos 4);
  reading_json = λ _. some (lit "{}");
  failures_json = λ _ _. lit "[]";
  values_json = λ _. lit "{}";
  sha256_hex = λ t. t;
}

abbrev reading : Reading (Option ℤ)
reading = record {
  gateway_id = lit "gw";
  dev_dn = lit "INV-1";
  dev_name = lit "inverter";
  plant_code = lit "PA";
  plant_name = [];
  dev_type_id = pos 1;
  model = lit "M";
  collect_time = pos 1000;
  register_address_map = (lit "10", some (pos 7)) ∷ [];
}

-- The same values a second later.
abbrev second_reading : Reading (Option ℤ)
second_reading = record reading { collect_time = pos 2000 }

abbrev messages : Messages (Option ℤ)
messages = record {
  poll_message = λ _. lit "error";
  poll_detail = λ _. lit "{}";
  enqueue_message = λ _. lit "error";
  enqueue_detail = λ _ _. lit "{}";
}

abbrev sweep : Sweep (Option ℤ)
sweep = record {
  client = new_client;
  idle = idle;
  store = empty_store;
  counts = record { read_ok = 0; failed = 0; queued = 0; idle = 0 };
}

abbrev cached : List (ConnectionConfig × Times)
cached =
    (plant_connection, record { cycle = pos 1; warned = pos 2; enqueued = pos 3; logged = pos 4 })
    ∷ []

abbrev gate : Gate
gate = record { free = true }

poll_enabled_connections_lem_example :
    (let after =
        poll_enabled_connections floats world messages no_settings
          (lit "gw")
          cached
          (gate, sweep) in
      (after.0.free ≡ true)
      × (true ≡ true
          → IsCounted (length (keep (is_enabled floats world messages) cached)) after.1.counts)
      × (true ≡ false → after.1 ≡ sweep))
poll_enabled_connections_lem_example =
    poll_enabled_connections_lem floats world messages no_settings (lit "gw") cached gate sweep

swapped_power-one_of : one_of (lit "SW_INT") swapped_types ≡ true
unfolding one_of
swapped_power-one_of = refl

register_of-swap_words_example :
    LosesSwap floats
      (lit "HIGH_LOW")
      7
      0
      (lit "SW_INT")
      (register_of (record power { data_type = lit "SW_INT" })).data_type
register_of-swap_words_example =
    register_of-swap_words floats (record power { data_type = lit "SW_INT" }) (lit "HIGH_LOW") 7 0
      swapped_power-one_of
