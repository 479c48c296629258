-- ===== src/Examples/Boot.antt =====
-- The theorems on main/home-node.c, applied to a start on which all goes well.
use gate_lock_home_node.Base.{
  ℕ, zero, suc, ◌≡◌, ◌≢◌, ◌⊎◌, is_ok, refl, true, false, none, some, List, [], ◌∷◌, EspErr, pos,
  esp_ok, cstr, drop, same_text, codes, replicate, flat_map,
}
use gate_lock_home_node.Http.Types.{Server}
use gate_lock_home_node.Http.Routes.{find_uri, http_server_get_interface}
use gate_lock_home_node.Http.Routes.Table.{IsBlank, table}
use gate_lock_home_node.Node.Types.{Node}
use gate_lock_home_node.Node.Request.{user_request_create}
use gate_lock_home_node.Gui.Lcd.{sh1107}
use gate_lock_home_node.Gui.Op.Steps.{settle}
use gate_lock_home_node.Gui.Op.View.{shown, event_effect}
use gate_lock_home_node.Main.Types.{Call, nvs_flash_init, nvs_flash_erase, MainEnv, System}
use gate_lock_home_node.Main.Start.{esp_flash_init}
use gate_lock_home_node.Main.Boot.Halts.{esp_flash_init-erases, app_main-waits}
use gate_lock_home_node.Main.App.{app_main, request_config}
use gate_lock_home_node.Main.Routes.{FreshServer, user_request_create-route}
use gate_lock_home_node.Main.Endpoints.{callback_of}
use gate_lock_home_node.Main.Display.{lcd_display, no_display}
use gate_lock_home_node.Main.Display.Laws.{Dark}
use gate_lock_home_node.Main.Boot.{AllWell}
use gate_lock_home_node.Main.Boot.Whole.{app_main-Serves, Serves}
use gate_lock_home_node.Main.Boot.Stages.{boot_events}
use gate_lock_home_node.Examples.Pool.{pool}
use gate_lock_home_node.Examples.Server.{server, blank}
use gate_lock_home_node.Examples.Update.{idle}
use gate_lock_home_node.Examples.Gate.{outside}
use gate_lock_home_node.Examples.Display.{screen, dark, frame, screen-Works}

-- Wifi calls back before the second test of the wait.
abbrev pub well : MainEnv
well = record {
  result = λ cs c. esp_ok;
  nvs_no_free_pages = pos 4365;
  nvs_new_version_found = pos 4368;
  connected = false ∷ true ∷ [];
  channel = 6;
  peer_registry = true;
  discovered = true;
  node = outside;
  ota_init = record {
    new_client = some 1;
    new_semaphore = some 1;
    task_result = pos 1;
    state_result = esp_ok;
    pending_verify = false;
  };
}

abbrev pub unused : Server (List ℕ)
unused = record server { server_handle = none; async_bank = [] }

-- A node that has not started.
abbrev pub asleep : Node (List ℕ)
asleep = record {
  server = unused;
  ota = idle;
  request_interface = false;
  output_interface = false;
  delegate_queue = none;
  delegate_task = false;
  calls = [];
}

abbrev pub off : System (List ℕ)
off = record { gui = dark; node = asleep; proceed = false; calls = [] }

drop_zeros : (n k : ℕ) → cstr (drop n (replicate k 0)) ≡ []
unfolding cstr
drop_zeros zero zero = refl
drop_zeros zero (suc k) = refl
drop_zeros (suc n) zero = refl
drop_zeros (suc n) (suc k) = drop_zeros n k

blank-IsBlank : IsBlank blank
blank-IsBlank n = drop_zeros n 16

pub unused-FreshServer : FreshServer unused
unused-FreshServer = record {
  stopped = refl;
  unused = refl;
  blanks = record {
    b0 = blank;
    b1 = blank;
    b2 = blank;
    b3 = blank;
    b4 = blank;
    five = refl;
    blank0 = blank-IsBlank;
    blank1 = blank-IsBlank;
    blank2 = blank-IsBlank;
    blank3 = blank-IsBlank;
  };
}

user_request_create-route_example :
    (t : Node (List ℕ)) × (user_request_create outside pool (some request_config) asleep
      ≡ some (esp_ok, t))
    × (callback_of (find_uri (codes "/get-log") (table t.server)) ≡ some 2)
    × (http_server_get_interface t.server ≡ true)
    × (t.ota ≡ idle)
unfolding same_text
user_request_create-route_example =
    user_request_create-route outside pool asleep (codes "/get-log") unused-FreshServer
      λ cs port n. refl

pub well-AllWell : AllWell well
well-AllWell = record {
  called = λ cs c. refl;
  room = refl;
  same_version = refl;
  connects = (false ∷ [], [], refl);
  registry = refl;
  found = refl;
  serves = λ cs port n. refl;
}

dark-Dark : Dark dark
unfolding shown
dark-Dark = record { still = refl; quiet = refl }

app_main-Serves_example :
    (t : System (List ℕ)) × (v : System (List ℕ)) × (app_main well
        (lcd_display screen sh1107)
        pool
        off
      ≡ some (tt, t))
    × (app_main well no_display pool off ≡ some (tt, v))
    × (Serves (codes "/open-gate") t)
    × (Serves (codes "/open-gate") v)
    × (shown (settle screen frame 18 t.gui).calls
        ≡ flat_map (event_effect t.gui.children t.gui.lv_screen) boot_events)
app_main-Serves_example =
    app_main-Serves well screen sh1107 pool off (codes "/open-gate") frame well-AllWell screen-Works
      (λ cs. refl) dark-Dark unused-FreshServer

-- A flash that has no room at first, and an access point that does not answer.
abbrev old_flash : MainEnv
old_flash = record well { result = result; connected = false ∷ false ∷ [] }
  where
    result : List Call → Call → EspErr
    result [] c = pos 4365
    result (_ ∷ _) c = esp_ok

esp_flash_init-erases_example :
    let t : System (List ℕ) = record off {
      calls = nvs_flash_init ∷ nvs_flash_erase ∷ nvs_flash_init ∷ [];
    } in
    ((t ≡ record off { calls = nvs_flash_init ∷ [] })
      × (is_ok (pos 4365) ≡ true)
      × (pos 4365 ≢ pos 4365)
      × (pos 4365 ≢ pos 4368))
    ⊎ ((t ≡ t)
        × ((pos 4365 ≡ pos 4365) ⊎ (pos 4365 ≡ pos 4368))
        × (is_ok esp_ok ≡ true)
        × (is_ok esp_ok ≡ true))
unfolding esp_flash_init
esp_flash_init-erases_example =
    esp_flash_init-erases old_flash off
      (record off { calls = nvs_flash_init ∷ nvs_flash_erase ∷ nvs_flash_init ∷ [] }) refl

app_main-waits_example : app_main old_flash no_display pool off ≡ none
app_main-waits_example = app_main-waits old_flash no_display pool off refl refl
