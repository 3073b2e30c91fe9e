-- ===== src/Lib.antt =====
-- The key handling and the configuration of the CH583 keyboard firmware, for keyboard/zora61: what
-- becomes of a key event, and what the host may do to the key map.
--
-- The parts and their files:
--   Util      TMK/util.c: counting, finding and reversing bits. Every function has its name.
--   Storage   DRIVERS/eeprom/eeprom.c: the blocks for key map, macros and settings, as lists of
--             bytes. A copy that leaves its block is the value `fault`. Storage.Flash has the way
--             to and from the data flash, which is a parameter (EEPROM_READ, EEPROM_ERASE,
--             EEPROM_WRITE of the maker's library).
--   Hid       DRIVERS/USB/hid_configuration.c: the commands of the host, one clause of `dispatch`
--             each, with the packets they send as values.
--   Event     TMK/keyboard.h, action.h and timer.h: key events and the records that carry them.
--   Layer     TMK/action_layer.c: the layer state, the layer chosen for a key, and the layer that
--             is kept from a press to its release. The key map is a parameter there, since
--             action_for_key of Storage fills it.
--   Report    TMK/action_util.c: the keyboard report and its modifiers; Report.Ring the six keys of
--             the boot protocol, Report.Nkro one bit for each key.
--   Tapping   TMK/action_tapping.c: keys that do one thing when tapped and another when held, with
--             the buffer of events that wait for the decision. Tapping.Machine is process_tapping
--             and action_tapping_process, cut at its outer branches.
--   Matrix    DRIVERS/keyboard_matrix.c: a scan of the matrix and its debouncing; the levels of the
--             pins are a parameter.
--   Timer     DRIVERS/keyboard_timer.c: elapsed times; the tick of the system is a parameter.
--   Host      TMK/host.c: what goes to the host driver, given as a list of reports.
--   Driver    DRIVERS/keyboard_host_driver.c, with usb_send_key of DRIVERS/USB/usbuser1.c: the
--             reports in the buffers of endpoints 1 and 2, and the IN tokens that take them; Driver.Slots
--             is what the endpoints promise.
--   UsbDevice DRIVERS/USB/usbuser1.c and usbdesc.c: the interrupt of the USB controller, with the
--             requests on endpoint 0 in UsbDevice.Requests, the other endpoints in
--             UsbDevice.Endpoints, and the descriptors. The registers are bytes of the state, and
--             DevEPn_IN_Deal of the maker's library is a parameter.
--   Light     DRIVERS/RGB/RGB_bottom/rgblight.c: the settings of the lights under the keys, with
--             sethsv in Light.Colour and the operations of the keyboard in Light.Commands.
--   Mouse     TMK/mousekey.c: press and release of the mouse keys, and Mouse.Repeat the movement
--             that is repeated while they are held. The double 0.7 is written out on whole numbers.
--   Code      TMK/action_code.h, keycode.h, led.h and report.h: the fields of an action's code, the
--             ranges of key codes and their usages.
--   Keyboard  TMK/action.c: the utilities register_code, unregister_code, clear_keyboard and their
--             kin, over one state of report, layers, host and mouse; and `Board`, the parameters of
--             the keyboard: the key map, process_record_kb, the lights and the tick.
--   Action    TMK/action.c: process_action, one function for each kind of action, is_tap_key and
--             action_exec; Action.Macro is action_macro_play and Action.Macro.TapMacro
--             action_tapmacro_play of TMK/action_macro.c.
--   Task      TMK/keyboard.c: keyboard_task; and Task.Running APP/task_thread.c, the thread that
--             calls it in a loop.
--   Base      numbers, bits, words and lists that the parts share.
--   Examples  the theorems at concrete inputs, and runs.
--
-- keyboard_task compares two scans of the matrix and gives each key that changed to action_exec,
-- which gives it to the tapping code; that asks the layer code for actions and calls
-- process_action, which enters keys into the report, switches layers, and sends. Tapping.Actions is
-- the interface between the tapping code and action.c; `actions` of Action fills it. The host's
-- commands change the key map that the layer code reads.
--
-- Numbers are natural numbers; where the code's types wrap, the wrap is written out (u8, u16, u32).
-- The loops on bits have a fuel of one round more than the word has bits; the ring loops have six
-- rounds, the size of the ring; the loops over the waiting buffer have as many rounds as records
-- wait, fewer than eight. The loops of keyboard_task count the rows and columns, and those over the
-- lights the lights. A macro is a list of bytes, and reading past it is the result `none`. Theorems
-- below state that this is enough where a loop can run out.
--
-- Not modelled: waiting (wait_ms); output for debugging; the encoder block, which keyboard/zora61
-- does not compile; USB_Init, DevWakeup and the controllers of USB and flash themselves; displays,
-- and the effects of the lights over time; RT-Thread and the maker's libraries.
pub mod Base
pub mod Util
pub mod Storage
pub mod Hid
pub mod Code
pub mod Event
pub mod Layer
pub mod Report
pub mod Tapping
pub mod Matrix
pub mod Light
pub mod Mouse
pub mod Keyboard
pub mod Action
pub mod Task
pub mod Timer
pub mod Host
pub mod Driver
pub mod Examples
pub mod UsbDevice
