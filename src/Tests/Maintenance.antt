-- ===== src/Tests/Maintenance.antt =====
-- A run of the theorem on the flash route.
use mist_ui.Tests.Fixtures.{device, at_second, Switches, toy_crypto, plain, token}
use mist_ui.Store.Memory.{memory_bolt, unary_times, Entries}
use mist_ui.Store.Database.{second}
use mist_ui.HttpApi.Server.{Server, Response}
use mist_ui.HttpApi.Maint.{Maint, serve_flash}
use mist_ui.HttpApi.Maint.Gates.{IsGranted, serve_flash_gated}
use mist_ui.Base.{◌*◌, ◌≡◌, ◌≢◌, ◌⊎◌, false, some, ok}

abbrev toy_maint : Maint Switches
toy_maint = record {
  save_image = λ body w. (ok 3, w);
  image_size = λ w. 3;
  test_image = λ w. ok tt;
  flash = λ w. (ok tt, record w { tunnel = false });
  factory_reset = λ w. (ok tt, record w { kill = false });
}

-- A device whose sessions all hold a credit.
abbrev ready : Server Entries Switches
ready = record device { step_ups = record { m = λ key. some (100 * second); ttl = 120 * second } }

abbrev flashed : Response × Server Entries Switches
flashed =
    serve_flash memory_bolt unary_times toy_crypto plain toy_maint (at_second 20 (some token)) ready

serve_flash_gated_example :
    (flashed.1.world ≡ ready.world)
    ⊎ (IsGranted memory_bolt unary_times toy_crypto plain toy_maint
          (at_second 20 (some token))
          ready
        × (toy_maint.image_size ready.world ≢ 0)
        × (toy_maint.test_image ready.world ≡ ok tt)
        × (flashed.1.world ≡ (toy_maint.flash ready.world).1))
serve_flash_gated_example =
    serve_flash_gated memory_bolt unary_times toy_crypto plain toy_maint (at_second 20 (some token))
      ready
