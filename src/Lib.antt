-- ===== src/Lib.antt =====
-- The verification library of minde, a Wayland compositor that is scripted in Scheme.
--
-- The compositor runs one calloop event loop. Clients speak Wayland to its handlers, external tools
-- listen on the event socket or ask for automation (drops, screenshots), and the DRM backend repaints
-- each output when it is damaged. The library models these parts:
--
--   Base           shared: numbers, Boolean tests, lists and their lemmas.
--   Calloop        the interface of the event loop's handle, which is third-party code: registering and
--                  removing sources, with two laws. Calloop.Table is an instance for the examples.
--   Events         src/events.rs. Events.Journal is EventJournal (record, since), Events.Subscriber is
--                  one connection (try_flush, deliver), Events.Registry is SubscriberSet (publish_to,
--                  retire and the callbacks of register_writer, register_flush and register_subscriber),
--                  Events.Publish publish_line.
--   Automation     src/automation_dnd.rs. Automation.Results is AutomationResults, Automation.Source is
--                  AutomationDndSource, Automation.Offers its constructors files and text,
--                  Automation.UriList is build_uri_list and percent_encode_path.
--   Lock           src/handlers/session_lock.rs. Lock has the state, Lock.Focus enforce_lock_focus,
--                  Lock.Requests lock, unlock, new_surface and dispatch_lock_request, Lock.Confirm the
--                  receipts and maybe_confirm_lock, Lock.Frames the frames that src/udev.rs tags and
--                  presents (render_surface, frame_finish, lock_confirmation_outputs) and the request of
--                  src/handlers/dispatch.rs, also that to destroy a surface.
--   Redraw         src/udev.rs: the repaint loop of an output (RedrawState, render_now, frame_finish,
--                  schedule_redraw_where, the watchdog and the timer, pause, resume and power).
--   Modes          src/udev.rs: resolve_connector_mode.
--   Outputs        src/handlers/output_management.rs: Outputs.Validate is validate, Outputs.Layer the
--                  interfaces of smithay's Output and Space and of a backend, Outputs.Apply
--                  apply_output_configuration and commit_head with the position marks of src/state.rs,
--                  Outputs.Winit the backend of src/winit.rs.
--   Heads          src/udev.rs: the heads of the DRM backend (enable_head, disable_head, init_surface,
--                  udev_realize_head, udev_set_mode, udev_set_adaptive_sync, udev_set_output_power).
--                  Heads.Runs has the requests in any order, and the instance of Outputs' backend,
--                  Heads.Configured the configurations that it applies.
--   Layout         src/state.rs: layout_needs_repack, repack_auto_outputs, and screenshot_output_index in
--                  Layout.Screenshot.
--   Gamma          src/handlers/gamma_control.rs, and gamma_info_for_output of src/udev.rs.
--   Ipc            src/ipc.rs: one connection of the control socket (register_client, spawn_writer,
--                  evaluate, try_flush and the deadline).
--   Png            src/png.rs: the writer of screenshots.
--   Timing         src/timing.rs: the statistics of the probes.
--   Resize         src/grabs/resize_grab.rs: ResizeConfigureQueue.
--
-- The parts meet in four places. The lock's receipts come from the vblanks of the repaint loop: both
-- read the user data of the frame that frame_finish gets back, Lock.Frames the lock generation and
-- Redraw the flip generation. A finished drag is recorded in the automation results and published as
-- an event, by record_and_publish, which is not modelled. An output configuration is applied through a
-- backend, the record Outputs.Layer.Backend with its laws, which Outputs.Winit.winit and
-- Heads.Runs.udev fill. Outputs, Heads and Layout share smithay's outputs and space, the record
-- Outputs.Layer.Desktop.
--
-- Conventions. A byte, an identity (a client, a lock object, a surface, an output, a token) and an
-- unsigned machine integer are natural numbers, and a 64-bit sum is taken modulo 2^64. An i32 is an
-- integer: refresh_difference wraps it, and sums of positions and sizes are taken to fit. A scale is a
-- multiple of 2^-1074, as every finite f64 is. Shared, mutable state is passed explicitly. A panic is
-- none, or a constructor of its own. Sockets are lists of the answers that their next writes get. What
-- a render comes to is an argument, and so is what Wayland knows of its objects (Clients), the file
-- system and to_string_lossy (FileSystem), Smithay's dispatch of lock requests (Smithay), its outputs and space (Desktop,
-- Space), the drm crate (Drm) and the event loop (LoopHandle). The concurrent callers of events.rs and
-- automation_dnd.rs hold one mutex for each operation, so that their runs are sequences of operations.
--
-- Fuel and bounds. next_token retries on a zero token: two rounds are enough, since the counter moves on
-- by one. adler_chunks and stored_blocks take a chunk in each round, and the length of the input is
-- enough. The loops over lists are structural. Histories are bounded by 2^64 where a counter would
-- wrap: the journal's sequence, the subscribers' ids and the lock's generation.
--
-- Not modelled: the Scheme runtime (guile), rendering, the protocol glue of the other handlers, the
-- sockets' set-up, and of src/png.rs the creation of the file.
pub mod Base
pub mod Calloop
pub mod Events
pub mod Automation
pub mod Lock
pub mod Redraw
pub mod Png
pub mod Timing
pub mod Resize
pub mod Modes
pub mod Outputs
pub mod Gamma
pub mod Ipc
pub mod Layout
pub mod Heads
