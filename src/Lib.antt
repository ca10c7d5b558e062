-- ===== src/Lib.antt =====
-- Verification of the libraries of the Wixel SDK.
--
-- The program is a set of C libraries for the CC2511 microcontroller. The radio libraries form a stack:
-- the radio's interrupt runs in radio_mac.c, which reports events to a client and restarts the radio as
-- the client decided; radio_link.c is such a client and delivers packets with acknowledgements, retries
-- and a one-bit sequence number; radio_com.c makes a stream of bytes and control signals of those packets;
-- radio_queue.c is another client of radio_mac.c, without acknowledgements. Motors and I2C call the pin
-- functions of gpio.c. The USB core calls the callbacks of an application: the virtual serial port of
-- usb_cdc_acm.c and the keyboard, mouse and joystick of usb_hid.c. The other libraries stand alone: a
-- queue and a stack of five-byte tuples, the fields of a packet, the serial ports, SPI and the servos.
-- Programs join them: serial_i2c takes commands from a serial port, the radio or the host to the I2C bus,
-- and usb_serial carries bytes between the host and a serial port.
--
-- - Base: names passed on, Boolean tests, arrays as lists, circular arrays (Base/Ring), bit masks
--   (Base/Bits).
-- - Queue: libraries/src/queue/queue.c. QPush, QPushForce, QPop, InitQueue and LinkQueue are `push`,
--   `push_force`, `pop`, `init_queue` and `link_queue` on a memory of queues and tuples; Queue/Laws is
--   about one queue, Queue/Clients about calls through linked tuples.
-- - Stack: libraries/src/stack/stack.c, in the same way.
-- - Packet: libraries/src/packet/packet.c. readID, readY, readX and readR are `read_id` and so on; a
--   char may be signed or not.
-- - Baud, Uart: libraries/src/uart/core/uart.c. The functions uartN... have their names without the
--   prefix, the interrupt routines are `utx_isr` and `urx_isr`; registers are fields of `Uart`.
-- - Servo: libraries/src/servo/servo.c. The interrupt routine is `t1_isr`.
-- - RadioMac: libraries/src/radio_mac/radio_mac.c. The interrupt routine is `rf_isr`; the client's
--   callback is a parameter, and what the registers show is a record of readings.
-- - RadioLink: libraries/src/radio_link/radio_link.c. RadioLink/Defs has the variables and the calls of
--   the main loop, RadioLink/Handler the functions of the interrupt, `event_handler` above all.
--   RadioLink/Peer is the abstract protocol: queues of payloads and messages on the air in place of
--   buffers and header bytes, and RadioLink/World what two such peers and the air between them do.
--   RadioLink/Stations runs two nodes of the code over that air.
-- - RadioCom: libraries/src/radio_com/radio_com.c. RadioCom/Signals is about receiving, RadioCom/Stream
--   about sending.
-- - RadioQueue: libraries/src/radio_queue/radio_queue.c.
-- - Spi: libraries/src/spi_master/core/spi_master.c. The functions spiNMaster... have their names without
--   the prefix, the interrupt routine is `urx_isr`; the memory that the pointers point into is a list.
-- - Gpio: libraries/src/gpio/gpio.c. The macros SET_DIGITAL_OUTPUT and SET_DIGITAL_INPUT are `output` and
--   `input` on the registers of a port; Gpio/Pins has the state of each pin.
-- - Motors: libraries/src/motors/motors.c, as calls of Gpio; Motors/Drive has the two wheels.
-- - I2c: libraries/src/i2c/i2c.c. The functions i2c... have their names without the prefix. I2c/Bus is what
--   a listener on the bus sees, I2c/Bytes and I2c/Reading are about whole bytes, I2c/Errors about timeouts.
-- - Usb: libraries/src/usb/usb.c. Usb/Defs has the variables and the calls that set up a control transfer,
--   Usb/Requests usbStandardDeviceRequestHandler by request, Usb/Poll usbPoll with the packets of endpoint
--   0; the application's descriptors and callbacks are the record `App`. Usb/Control is about whole
--   transfers, Usb/Descriptors about the length of what is sent, and Usb/Sleep has usbSleep.
-- - UsbCom: libraries/src/usb_cdc_acm/usb_cdc_acm.c. The functions usbCom... have their names without the
--   prefix. UsbCom/Callbacks has the callbacks of the USB core, UsbCom/Port the bytes both ways with the FIFO
--   as lists of packets, UsbCom/Stream and UsbCom/Runs what the host receives, UsbCom/LineCoding the
--   requests through the USB core.
-- - UsbHid: libraries/src/usb_hid/usb_hid.c, with the callbacks, the reports and the table of key codes;
--   UsbHid/Reports and UsbHid/Runs are about the reports, UsbHid/Idle about the host's requests for the idle
--   rate, UsbHid/Requests about those for a descriptor, UsbHid/KeyCodes about the table.
-- - Apps: apps. The function pointers to a serial interface are the record `Serial`; Apps/Forward is the loop
--   that carries bytes between two of them. Apps/SerialI2c is apps/serial_i2c/serial_i2c.c: parseCmd is
--   `parse_cmd`, i2cService `service`; its Writing and Transfers are about write commands, its Responses and
--   Reading about read commands over any interface that has room, its Ports about the interfaces that do,
--   its Service about any call. Apps/UsbSerial is apps/usb_serial/usb_serial.c: usbToUartService is `service`, its Ports
--   has the two ports as streams, its Both what one call does.
-- - Examples: the theorems at concrete inputs.
--
-- Numbers are natural numbers with the wrap-around of uint8, uint16 and uint32 written out. Loops with a
-- bound in the source are recursion on the rounds left. The halving loops of the baud rate have fuel 32,
-- enough to empty a uint32. The loop of receiveMorePackets has as many rounds as there are receive
-- buffers, 3, of which at most 2 hold a packet; a loop that does not end in them is `none`. The loops of
-- usb_serial have a round for each byte that waits, and one more. The loop of usbComTxSend has a round for
-- each byte, and each round takes one at least. The waiting loops of radioLinkChangeChannel run over a
-- given list of readings of MARCSTATE.
--
-- Random numbers, the result of the CRC test and what volatile registers show are inputs. An interrupt
-- routine and a call of the main loop each run as one step; so does a call of usbToUartService. The loops
-- of i2cWaitForHighScl and usbSleep and the one that waits for the last byte of SPI run over lists of
-- readings, and are `none` if these end first. Not modelled: the descriptors of the USB classes, the
-- board's set-up, time, ADC, LEDs, reporting, the main functions of the two programs, and the other
-- programs.
pub mod Base
pub mod Queue
pub mod Packet
pub mod Baud
pub mod Uart
pub mod Servo
pub mod RadioMac
pub mod RadioQueue
pub mod RadioCom
pub mod Stack
pub mod Spi
pub mod Gpio
pub mod Motors
pub mod Usb
pub mod UsbCom
pub mod UsbHid
pub mod Apps
pub mod I2c
pub mod Examples
pub mod RadioLink
