-- ===== src/Lib.antt =====
-- The firmware of an ESP32 that updates itself over the air (C, in main/).
--
-- main/main.c configures the updates and starts them. main/iap_https.c coordinates: its task asks the
-- update server for a metadata text, and, if that names another version, for the firmware image. Both
-- requests go through main/https_client.c, which parses the response that main/wifi_tls.c reads from a
-- TLS connection with a pinned key, and hands the body to a callback of main/iap_https.c. The callback
-- for the image writes it through main/iap.c to a partition that is not the boot partition, and makes
-- that the boot partition.
--
-- Files and what they model:
--   Prelude      shared names; `Run`, the outcome of C code: done, blocked, or fault (undefined)
--   Flash        the OTA functions of ESP-IDF and the heap, as a record of replies (`Platform`)
--   Iap          main/iap.c: `iap_state` is the record `Iap`, each function has its name;
--                Iap/Image, Begin, Session, Boot, Spared, Validity and Calls hold what it does
--   CText        the functions of the C library on text and numbers that the program calls
--   Http         main/https_client.c: types and text searches. Http/Callback is
--                `https_tls_callback`, Http/Request `https_send_request`. Http/Lines is about the
--                searches, Http/Created about the request; Http/Taken, Headers, First, Stream,
--                Download and Response about a response that is delivered piece by piece, Http/Whole
--                and WholeResponse about one that is collected first, Http/Rejected about one that is
--                not accepted, Http/Spanning about headers that end in a later packet; Http/Sending is
--                about a whole request, and Http/Frame and Kept about what no request changes
--   Tls          main/wifi_tls.c: the context; Tls/Pinning the pinned key, Tls/Connection the
--                connection and the loops. Tls/Trust, Keys, Loops, Send and Port hold what they do,
--                Tls/Secured which connections are sent over
--   Ota          main/iap_https.c: the module state and the body callbacks; Ota/Task the requests, the
--                timer and the rounds of the task. Ota/Timer is about the timer, Ota/Start, Update, Install,
--                Metadata and Download about the callbacks, Ota/Check and Round about the two requests from end to
--                end, Ota/Frame, Sound and Secured about what they leave alone, keep and send.
--                Ota/Schedule is `iap_https_task` beside the application and the timer, turn by
--                turn; Ota/Schedule/Undisturbed, Progress, Live, Requested, Polling, Asleep,
--                Sound and Secured are about the orders of turns
--   Wifi         main/wifi_sta.c, and `app_event_handler` of main/main.c; Wifi/Setup and Wifi/Events
--                what they do
--   App          `init_ota` of main/main.c
-- Tests run the code on concrete inputs: Iap/Tests, Http/Tests, Http/RejectedTests, Http/WholeTests,
-- Tls/Tests, Ota/Tests, Ota/RoundTests, Ota/CheckTests, Ota/Schedule/Tests, Wifi/Tests and App/Tests;
-- Iap/Sample and Ota/Sample hold the states that they share.
--
-- Functions are cut where their bodies have a guard or a return, into definitions named for that
-- part. State is passed explicitly. The static variables of a module are one record. The task, the
-- application and the timer take turns, in any order; a turn ends where another of them can come
-- between. The functions of ESP-IDF, mbedTLS and FreeRTOS are no code of the repository: their replies
-- are functions of the calls made before, or lists of replies for calls made in loops. What is relied
-- on is a hypothesis with a name: MallocGives, BootKnown, FindsByLabel, WritesSucceed and Activates of
-- the flash, Allocates of the heap, TimersWork and StartsTimer of the timer, WritesAtEnd, Accepts,
-- Takes and Serves of mbedTLS, Arrives, ResponseArrives, HasHeaders, CompletesHeaders and ReadsAs of what the server sends, CallbacksKeep
-- of the callbacks of an application, Calm, Opens and Unasked of an order of turns.
--
-- `esp_restart` does not return: `iap_https_download_image` is `blocked` once it has been called.
-- `request_image` is the body of that function, and gives the state of the module and the flash at
-- the call; it then still closes the connection, so nothing is said of the connection of a device
-- that has restarted but what was sent over it. A response buffer that is NULL is the empty list: `malloc` gives no empty
-- block for these sizes. The timer runs or not (`timer_runs`), and the results of the calls for it
-- are a record (`TimerCalls`).
--
-- Bounds: `uint16_t`, `uint32_t` and `size_t` wrap at 16 and 32 bits; the page has 4096 bytes. The loop
-- of `iap_write` runs on fuel len + 2: each round but the first copies a byte at least, since the page
-- buffer is full before the first round only after a write that failed. The loops of main/wifi_tls.c
-- recurse on the list of replies, and wait when it is used up. `sprintf` of an `int` runs on fuel
-- 10, the digits of 2 ^ 31.
--
-- Not modelled: the start of the system and the LED in `app_main`, and `init_wifi`, which hands two
-- constants to `wifi_sta_init`; the functions that release memory (`wifi_tls_free_context`,
-- `https_destroy_context`) or print; the callbacks for headers, which nothing calls; the texts of the
-- certificates in main/main.h, which are arguments; and memory that other tasks of the platform share.
pub mod Prelude
pub mod Flash
pub mod Iap
pub mod CText
pub mod Http
pub mod Tls
pub mod Ota
pub mod Wifi
pub mod App
