-- ===== src/Lib.antt =====
-- KioskMate supervises the browser of a kiosk display: a daemon starts Chromium, decides from a
-- schedule which page is on screen and whether the display is on, restarts a browser that hangs,
-- dies or uses too much memory, and takes commands over MQTT. This library models the decisions
-- of the daemon.
--
-- * Mqtt models internal/mqttclient/packet.go. Mqtt/Length is encodeRemainingLength and both
--   decoders, Mqtt/Packet the framing, PUBLISH, SUBSCRIBE and CONNACK, Mqtt/Connect the CONNECT
--   payload. A writer's output and a reader's input are lists of bytes; errors are values of
--   Result.
-- * Supervisor models parts of internal/supervisor. Supervisor/Recovery is recover and what it
--   calls in runtime.go; Supervisor/Watchdog is shouldRestart and watchdogRestartAllowedLocked
--   of browser.go; Supervisor/Heartbeat is the heartbeat of monitorControl in cdp.go and
--   handleRendererHang in hang.go; Supervisor/Schedule is schedulerTarget and what it calls in
--   browser.go. Supervisor/Tabs is the bookkeeping of tabs.go and Supervisor/Maintenance the
--   maintenance reloads of browser.go. Supervisor/Window holds the sliding windows that
--   recovery and watchdog share.
-- * Config models the parts of internal/config that these read: Config/Kiosk the records,
--   Config/Pages the enabled pages, Config/Clock the clock texts and weekdays, Config/Conflicts
--   the overlaps that conflicts.go reports.
-- * Config/Rules is the validation of workflow rules in internal/config/rules.go, and
--   Config/Inserts is internal/config/inserts.go: its slots (Config/Inserts and its loops), the
--   insert on screen and the preview (Config/Inserts/Program), conditions on MQTT topics and
--   the validation.
-- * Workflow models internal/workflow/engine.go: Workflow/Conditions is blocked,
--   Workflow/Actions is execute, action and the display timer, Workflow/Firing what fires a
--   rule, from the timer to webhooks. The browser and the hardware are an argument (Outside)
--   that answers from the commands it was given so far, in any way.
-- * Signals is internal/signals/signals.go, the last values of MQTT topics and the last
--   presence, and Journal is internal/events/journal.go without its file.
-- * Versions is the order of versions and the choice of a release in
--   internal/updater/updater.go.
-- * Common holds the numbers, lists, texts and tests that all parts share; Examples applies
--   each result at a concrete input.
--
-- The scheduler asks the configuration for its pages, rules and clocks, and recovery and
-- watchdog share the browser's process. State that the source keeps in the fields of Browser is
-- a record per part, and an operation is a function from a state to a state and an answer. Times
-- are whole nanoseconds, and 0 is the zero time. A function that changes state under a lock is
-- one step; preloadTabs, which releases the lock while Chromium answers, is two. The workflow
-- engine deals with one event at a time, and the rules of one event are all asked for the time
-- of the event, where the source reads its clock anew for each rule.
--
-- Process control, the network, the clock, the calendar and the sun are arguments: how a reload,
-- a stop and a start end (World), the minutes of a day (Moment), the days of the time zone
-- (Calendar), the days that AddDate leads to, whether Home Assistant denies a start, what a
-- presence signal says at a moment. The results on inserts are about time zones in which no
-- clock change skips a midnight. Supervisor/Schedule/Program puts the configured inserts in the
-- place where the scheduler asks for them. Loops of the source are structural recursion or
-- recursion on accessibility. Three run on fuel: the eviction of tabs on the length of the use
-- list, from which each round takes one entry; the minutes of an interval on the 1440 of a day;
-- and the days of InsertSlots on one day per hour of the interval and three more, which is
-- enough if each day has a midnight and lasts at least an hour. Integers are unbounded, except
-- where the source itself cuts them to bytes, which the packets do with % 256 and % 65536, and
-- except for the durations of inserts and the numbers of versions, which wrap around as 64 bits.
-- Texts change the case of ASCII letters only, and their lengths count characters.
--
-- Not modelled: the MQTT client's connection, the admin server, the updater's jobs, downloads
-- and history, loading and saving of the configuration, and all code that only drives Chromium,
-- devices or the operating system.
pub mod Common
pub mod Mqtt
pub mod Supervisor
pub mod Config
pub mod Workflow
pub mod Signals
pub mod Journal
pub mod Versions
pub mod Examples
