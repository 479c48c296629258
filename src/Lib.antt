-- ===== src/Lib.antt =====
-- Verification of the gate lock home node: the firmware of an ESP32 that takes requests over HTTP,
-- sends commands to the gate lock, serves its log and updates itself over the air.
--
-- The parts and how they interact. A request comes to the HTTP server
-- (components/http-server/http_server.c), whose `master_request_handler` finds its URI, puts it
-- into a slot and calls the handler that components/user-request/user_request.c has registered.
-- That handler posts an event, which main/routine_event_handler.c turns into a command for the
-- lock, a job that sends the log, or the start of an update. Answers go through
-- components/user-request-response/user_output.c back to the server. The update service
-- (components/ota-service/ota_service.c) runs in a task of its own: it fetches a manifest, compares
-- versions, downloads an image to the next partition and asks for a reboot by an event.
-- components/gui-component shows what the node does: an event of the system goes through a queue to
-- the task of gui_op.c, which asks home_screen.c for texts, and these go as jobs through a second
-- queue to the task of ui_worker.c, which alone calls LVGL once the display has started.
-- main/home-node.c starts all of these.
--
-- Base: names of the library, Boolean tests on native numbers, lists, `strncpy`, `strcmp` and
--   `strnlen` on arrays of bytes, signed integers and `esp_err_t`.
-- Http: http_server.c and http_server.h. Http/Types has the static data as the record `Server`, the
--   calls on esp_http_server as the type `Call`, and bank_pool as the record `Bank` of operations
--   with the record `BankLaws` of what they promise. Http/Respond has the responses that are sent
--   at once, Http/Async the chunked responses and the three workers of the server task, Http/Routes
--   the table of URIs, the request handler, start and stop.
-- Ota: ota_service.c and ota_service.h. Ota/Types has `ota_service_state` as the record `Ota`;
--   Ota/Events is `_http_event_handler`, Ota/Manifest is `fetch_ota_manifest`, Ota/Version the two
--   tests of versions, Ota/Download the loop that writes the image, Ota/Task one round of
--   `ota_task`, Ota/Control the functions that other components call.
-- Node: user_request.c (Node/Request), user_output.c (Node/Output) and routine_event_handler.c
--   (Node/Routine), on the record `Node` that joins the server and the update service. Node/Answers
--   follows a gate request from its handler to its answer, Node/Log the log. Node/Requests joins the
--   node with the parts outside that keep a request for it, as the record `World`: the events that
--   the adapter took, the commands that the codec took, and the log that the delegate task sends.
--   Its steps are a request that comes, the event loop with its oldest event, an acknowledgement or
--   another component's event, the delegate task that takes a job or makes a round of its loop, and
--   the server task with its oldest work, in any order. Node/Requests/Owners says who holds the slot
--   of a request; Answering, Serving, Handing, Handlers, Steps, LogSteps and Arrival are about that
--   account in each step, History about any order of steps, Holders about the slots that are still
--   used, Full about a request that finds no slot; Work and Moves count what is left to do, and
--   Settle is about its end. Delegate compares the two steps of the log with the loop of the source.
-- Sd: components/sd-card-logging. Sd/Mount is internals/sd_mount.c, Sd/Writer is logger.c.
-- Gui: components/gui-component and gui-interface. Gui/Worker is priv_src/ui_worker.c, and
--   Gui/Worker/Sync compares its two ways to run a job; Gui/Home is priv_src/home_screen.c, Gui/Op is
--   src/gui_op.c, Gui/Lcd is src/lcd_device.c, Gui/Dummy is the two files for a node without a
--   display. Gui/Op/View says what the display has shown and what still waits, Gui/Op/Steps has the
--   histories of events and of steps of the two tasks, in any order.
-- Main: main/home-node.c and components/mdns-service, on the record `System` that joins the display
--   and the node. Main/Display has the functions of a display as the record `Display`, with what the
--   start relies on in it as the record `DisplayLaws`. Main/App is `app_main`, Main/Endpoints and
--   Main/Routes say which handler a URI reaches, Main/Boot what each step of the start leaves, and
--   Main/Life goes on from the start to any history of requests.
-- Examples: a concrete pool, server, update, node, display and start, on which the theorems are
--   applied.
--
-- Conventions. A function of the source has its own name here; those of the two files of Gui/Dummy,
-- which are named like the ones they stand for, begin with `dummy_`. Static data is passed as a
-- record. A call on code outside the repository is recorded in the list `calls`, newest first, and its
-- result is a parameter: a function of the calls made before, or a field of a record of answers.
-- What is passed over is logging, the TLS set-up and the delays between rounds. `none` as the
-- result of a loop means that the given answers ended before the loop did; the theorems on
-- endings name the answers for which it does not happen. `none` as the result of a registration
-- is a write past the table of URIs, `null_write` a write through NULL. In the steps of Node/Requests
-- `none` is that write, or a restart: `esp_restart` does not come back. In Gui and Main `none` is a
-- reset (ESP_ERROR_CHECK, or a use of NULL), a send that waits for room in a queue, or the wait for
-- wifi or for the discovery of the gate where it does not end. A step of a task of the display runs
-- as a whole: the queues are the only data that the tasks share, and LVGL is called under its lock.
-- `app_main` is run by itself, and the display's tasks after it, which is the order that leaves most
-- in the queues. A step of Node/Requests is one call of a handler or one round of a task: the pools
-- and the queues that they share are taken to be safe against each other's use, as bank_pool and
-- FreeRTOS promise.
--
-- What the theorems on requests ask of the parts outside is named: `BankLaws` (a block that is
-- handed out was free, and is free again once it is given back), `RegistersFree` (a new pool is
-- free), `HasBlocks` (a block is refused only if all are handed out), `TakesWork` (the server takes
-- every work) and `QueueTakes` (a send that waits without end takes every job). The events and the
-- commands may be refused at any time. `httpd_req_async_handler_begin`, whose result the source does
-- not test, is taken to succeed.
--
-- Bounds. Arrays have the source's sizes: 1024 bytes for the response buffer, 64, 512 and 65 for
-- the manifest's fields, 256 for a chunk, 5 URIs, 30 for a text of the display, 64 for a job, 16
-- jobs and 10 events in the display's queues. A loop consumes one answer of the outside a round, so
-- that no fuel is chosen. The rounds of the server task are counted: one for each work that waits,
-- two for the end of a response. So are the rounds of the display's tasks: one for each job that
-- waits, two for each call of an event, and one for the event.
-- What is left to do for the open requests is counted in rounds as well: 5 for an event, 4 for a job,
-- 3 for the log that is sent, 1 for a command, and the rounds of the server task.
--
-- Not modelled: get_gate_node_mac of main/home-node.c, and print_sha256, infinite_loop, http_cleanup,
-- task_fatal_error and set_fixed_time_for_tls of ota_service.c, which nothing calls, the bitmaps of
-- wifi_icons.h, which no file includes, and the scripts flash_firmware.py and token_test.py.
pub mod Base
pub mod Http
pub mod Ota
pub mod Node
pub mod Sd
pub mod Gui
pub mod Main
pub mod Examples
