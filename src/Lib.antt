-- ===== src/Lib.antt =====
-- A verification library of the OWON XDM1041 server: a Python program that owns the serial line of
-- a bench multimeter and offers it as typed operations, a raw SCPI socket and a web interface with
-- a store of readings. Paths are from the repository's root; all of them but
-- scripts/screenshot_ui.py begin with src/owon_xdm1041_server/, which is left out in this header.
--
-- The parts, from the line upwards, and how they interact:
-- - Base: numbers, lists, text as lists of code points (Base/Strings), and actions
--   (Base/Effects). A method that changes an object and may raise is an action: it takes the state
--   and returns a result, or an exception without its message, beside the state it leaves, also
--   where it raises. `try_except` and `try_finally` are the two forms of the `try` statement.
-- - Settings: config.py, and `_settings_for` of __main__.py.
-- - Device/Transport: the abstract class `Transport` of device/transport.py as a record of
--   operations, and the laws that its documentation promises (`IsTransport`).
-- - Device/Serial: `SerialTransport` of the same file, over pyserial. Device/Serial/Threads cuts
--   `_transact_blocking` at each call of the port, for two threads at one port.
-- - Device/Mock: `MockTransport` of device/mock.py, with its command interpreter (`handle` is
--   `_handle`, `configure` is `_configure`, `measured` is the value of `_measure`).
-- - Device/Factory: device/factory.py, which chooses one of the two.
-- - Device/Commands: device/commands.py, the command texts, `Function` and `Rate` and their parsing.
-- - Device/Manager: `DeviceManager` of device/manager.py over any transport; `connect`, `reconnect`,
--   `safe_close` and `transact` are the methods with an underscore, and `ensure_open` and `attempt`
--   are the two halves of `_transact`. Device/Manager/Steps cuts each method at its waits, and
--   Device/Manager/Tasks lets any number of tasks run them under the lock.
-- - Device/Driver: `Driver` of device/driver.py over the manager, and `run_probe` of
--   device/probe.py.
-- - Scpi: scpi/server.py, `handle_command` and `_handle_client` over the manager. A client's loop
--   runs over the list of what happens while it waits: lines, a lost connection, and what other
--   tasks do to the device. Scpi/Listener has the methods that start and stop the listening.
-- - Models: models.py. Storage: `Database` of storage/db.py, over SQLite.
-- - Web/Broadcast, Web/Poller, Web/Recorder: the files of web/ with these names. The poller samples
--   through the driver while there are viewers and publishes; each subscription is a bounded queue;
--   the recorder inserts what its subscription gives into the store.
-- - Web/Api: the JSON handlers of web/api.py as actions on the meter and the store that the
--   application holds; Web/Api/Schema has what they receive and answer. Web/Live is its web socket,
--   and Web/Views the HTML handlers of web/views.py.
-- - Web/Lifespan: the lifespan of web/app.py, which connects the store and starts the recorder before
--   the application serves, and stops and closes them after.
-- - Runner: `serve` of runner.py and `_probe` of __main__.py, and both on the transport that the
--   settings ask for (`serve_command`, `probe_command`). Runner/Shutdown: both over the serial
--   transport, whose open ports Device/Serial/Ports follows. Runner/Components: `build_components` of
--   runner.py and `create_app` of web/app.py, where an object is a number. Runner/Main: `main` of
--   __main__.py, from the parsed arguments to the exit code and the lines printed.
-- - Screenshots: scripts/screenshot_ui.py: `_free_port`, `_wait_for_server` and `mock_server`;
--   Screenshots/Paths has the paths, and Screenshots/Pages `capture` and `main`.
--
-- Where parts are composed: Scpi/Served puts the socket on the manager, the serial transport and a
-- port at which a meter with a state answers (Device/Serial/Metered); Device/Driver/Online puts the
-- driver on one whose replies do not change (Device/Serial/Responsive).
-- Web/Recorder/Pipeline has the rounds of the poller, the recorder's subscription, the store and
-- the viewers, whose steps come in any order. Web/Broadcast/Unordered has the `set` of
-- subscriptions as a list that forgets its order.
--
-- Parameters, for code that is not in the repository: `Floats` (Python's float, with
-- `float(repr(x)) == x` as `IsPrintable`), `Pyserial` with `OpensPorts`, with `IsPyserial` for the
-- baud rates that it takes (for others it documents `ValueError`), and, for what a meter sends at
-- the other end, `StaysOpen` with `IsMeter`, or with `IsResponsive` for one whose replies do not
-- change; `Sqlite` with `Evaluates`, `Summarises` and `Appends`; `Asyncio` with `IsAsyncio` for its servers; for the script of the screenshots
-- `Network` with `IsNetwork`, `Sockets`, `Processes` with `IsProcesses`, `Browser` with `IsBrowser`
-- and `Temporary` with `IsTemporary`; `ArgumentParser`; and the time that the clock shows. Each of
-- them has an instance in the tests.
--
-- Bounds and fuel: the loops over lines, events and readings recurse on the list of what arrives,
-- so that each statement about them is about any finite beginning of a run. `Steps.run` and
-- `Threads.run` take a number of steps, and five are enough for each method; `wait_until` takes a
-- number of rounds, for which `wait_for_server` takes its timeout in quarters of a second and two
-- more; `digits` takes a bound on the number of digits, for which `decimal` takes the number and
-- one more. Text is a list of Unicode code points. `upper` changes the ASCII letters only, which is
-- all that a text decoded from ASCII holds; `strip` and `split` know all of Python's white space.
-- Timeouts are numbers of milliseconds; neither they nor the numbers of the settings are negative.
--
-- Concurrency: the manager holds a lock around each transaction and the event loop runs one task
-- between two waits. Device/Manager/Tasks has the lock, the waits and the cancellation of tasks.
-- A cancelled task can leave a thread behind that goes on at the port: of what follows, Tasks leaves
-- open what a wait does to the transport, and Device/Serial/Threads has two threads at one port.
-- Elsewhere a transaction, or a method with no wait, is one step, as Tasks/Serial justifies where no
-- thread was left behind.
-- Device/Driver/Interference puts steps of other tasks between the transactions of one operation,
-- Scpi puts them between the lines of a client, Web/Live between the readings of a viewer, and
-- Web/Poller/OnDemand, Web/Broadcast/Delivery and Web/Recorder/Pipeline order the steps of viewers,
-- publishers and listeners in any way; a round of the poller that is cancelled is there a change of
-- the device.
--
-- Not modelled: uvicorn, and what `asyncio.gather` does until one of its tasks ends; pydantic's
-- reading of the environment; what argparse parses; FastAPI's routes and decoding; the templates
-- and the scripts in the browser; the mock's latency and the sleep between two samples. The text of
-- log lines and exceptions is left out.
pub mod Base
pub mod Settings
pub mod Device
pub mod Scpi
pub mod Models
pub mod Web
pub mod Runner
pub mod Screenshots
pub mod Storage
