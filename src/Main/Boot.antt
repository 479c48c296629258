-- ===== src/Main/Boot.antt =====
-- The start of the node (main/home-node.c): what every step of it keeps, and what each leaves when
-- every part works.
pub mod Stages
pub mod Calls
pub mod Parts
pub mod Whole
pub mod Halts
use gate_lock_home_node.Base.{
  ◌≡◌, ap, ◌∙◌, Bool, true, false, Option, some, List, ◌∷◌, ◌++◌, esp_ok, is_ok,
}
use gate_lock_home_node.Http.Types.{Server, Httpd, Bank}
use gate_lock_home_node.Node.Types.{Node, DelegateJob}
use gate_lock_home_node.Http.Routes.{http_server_get_interface}
use gate_lock_home_node.Gui.Types.{Gui, GuiEvent}
use gate_lock_home_node.Main.Types.{Call, MainEnv, System, M, ◌>>◌, run_next}
use gate_lock_home_node.Main.Display.{Display}
use gate_lock_home_node.Main.Display.Laws.{DisplayLaws}
use gate_lock_home_node.Main.Routes.{Starts, IsRouted, Opened}

-- Every call that the start depends on succeeds, wifi calls back within the tests of the wait, there
-- is a peer registry, and the gate is discovered.
pub record AllWell (env : MainEnv) : Type 0 where
  pub called : (cs : List Call) (c : Call) → env.result cs c ≡ esp_ok
  pub room : is_ok env.nvs_no_free_pages ≡ false
  pub same_version : is_ok env.nvs_new_version_found ≡ false
  pub connects : (b : List Bool) × (bs : List Bool) × (env.connected ≡ b ++ true ∷ bs)
  pub registry : env.peer_registry ≡ true
  pub found : env.discovered ≡ true
  pub serves : Starts env.node.httpd

-- The server and the queue of jobs, as long as the start has not come to them.
abbrev pub Carried : {S : Type 0} → Server S → Option (List DelegateJob) → Node S → Type 0
Carried v q w = (w.server ≡ v) × (w.delegate_queue ≡ q)

-- What the display was told, before the server is started.
abbrev pub Booting :
    {S : Type 0}
    → {display : Display} → DisplayLaws display
    → Server S
    → Option (List DelegateJob)
    → List GuiEvent
    → Gui
    → Node S
    → Type 0
Booting laws v q events g w = laws.Informed events g × Carried v q w

-- What the display was told, and a started server that routes the URIs and has had no request.
abbrev pub Serving :
    {S : Type 0}
    → {display : Display} → DisplayLaws display
    → Httpd
    → Bank S
    → Server S
    → Option (List DelegateJob)
    → List GuiEvent
    → Gui
    → Node S
    → Type 0
Serving laws env bank v q events g w =
    laws.Informed events g
    × IsRouted w.server
    × (http_server_get_interface w.server ≡ true)
    × Opened env bank v w.server
    × (w.delegate_queue ≡ q)

-- A part of the start comes back, with a display and a server as promised.
pub record Reaches {S A : Type 0} (m : M S A) (s : System S) (P : Gui → Node S → Type 0)
    : Type 0 where
  pub value : A
  pub after : System S
  pub back : m s ≡ some (value, after)
  pub holds : P after.gui after.node

module _ {S : Type 0} where
  pub Reaches-then :
      {A : Type 0} {m : M S A} {k : M S (Unit {0})} {s : System S} {P Q : Gui → Node S → Type 0}
      → Reaches m s P
      → ((t : System S) → P t.gui t.node → Reaches k t Q)
      → Reaches (m >> k) s Q
  Reaches-then {A} {k = k} r next =
      let q = next r.after r.holds in
      record {
        value = q.value;
        after = q.after;
        back = ap (λ (o : Option (A × System S)). run_next o k) r.back ∙ q.back;
        holds = q.holds;
      }
