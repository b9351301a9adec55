-- ===== src/Lib.antt =====
-- wcn36xx: the mac80211 driver for Qualcomm WCN3660 and WCN3680.
--
-- The driver talks to the firmware in two ways. Commands go over the control channel of smd.c: a
-- message is laid out in `hal_buf` after a struct of hal.h, handed to `ctrl_ops->tx`, and the caller
-- waits for the response that `wcn36xx_smd_rsp_process` copies over it. Frames go over the rings of
-- dxe.c: a frame takes two descriptors, one for its buffer descriptor and one for its data, and an
-- interrupt takes back what the DMA engine has finished. main.c maps the callbacks of mac80211 to
-- both.
--
-- Parts and files:
-- - Common: tests, lists as buffers, bits, little-endian fields, signed integers, return
--   codes.
-- - Hal (hal.h, smd.h): Hal/MsgType the numbers of the messages; Hal/Enums the constants;
--   Hal/Layout the request structs as byte strings, one function per struct, named after it.
-- - Smd (smd.c): Smd/State has the state behind the channel, `Hal`, with what is outside: the
--   replies to the coming commands, the outcomes of the coming `kmalloc` calls and the messages
--   sent. Smd/Receive is `wcn36xx_smd_rsp_process`; Smd/Send is `wcn36xx_smd_send_and_wait` and the
--   shape of a command. Smd/Scan, Smd/Link, Smd/Keys, Smd/Power and Smd/Ba have the commands:
--   `wcn36xx_smd_X` is `smd_X`, and `X_msg` is the message that it lays out. Smd/Dispatch has all
--   of these commands as one data type. Smd/Nv is `wcn36xx_smd_load_nv`, Smd/Config the TLVs, start
--   and update_cfg, Smd/Caps the capabilities, Smd/Objects what is read of interfaces and stations,
--   Smd/Sta and Smd/Bss the station and BSS parameters in both layouts, with
--   `wcn36xx_smd_config_sta`, `wcn36xx_smd_add_sta_self`, `wcn36xx_smd_config_bss` and
--   `wcn36xx_smd_set_mc_list`, Smd/Exchange the shape of the commands that learn from their
--   response, Smd/Configure and Smd/Answers what those commands send and learn, Smd/Beacon the
--   templates, and Smd/Ind the work `wcn36xx_ind_smd_work` with its handlers. Smd/Bounds is
--   about how far the writes to `hal_buf` go. Smd/Effects, Smd/Outcome, Smd/Wire, Smd/Framed,
--   Smd/Bss/Layouts and the modules below Smd/Nv, Smd/Config, Smd/Caps, Smd/Beacon and Smd/Ind have
--   the proofs.
-- - Dxe (dxe.c, dxe.h): Dxe/State the structs; Dxe/Tx `wcn36xx_dxe_tx_frame` and `reap_tx_dxes`;
--   Dxe/Tx/Write and Dxe/Tx/Release what their writes leave, Dxe/Tx/Invariant the well-formed ring,
--   Dxe/Tx/Fifo the order of the frames, Dxe/Tx/Reap the walk, Dxe/Tx/Run runs of the ring; Dxe/Rx
--   `wcn36xx_rx_handle_packets`, `wcn36xx_dxe_fill_skb` and the loops over a receive channel,
--   Dxe/Rx/Invariant the receive ring, Dxe/Rx/Walk one call, Dxe/Rx/Run runs with the DMA engine;
--   Dxe/Irq the interrupt handlers over both channels of a direction, Dxe/Irq/Calls which calls
--   clear no interrupt, Dxe/Irq/Served one channel's part of a handler, Dxe/Irq/Handled both
--   handlers; Dxe/Ctl the allocation and
--   the freeing of the control blocks on a heap, Dxe/Ctl/Chain chains of blocks, Dxe/Ctl/Allocate
--   the rounds, Dxe/Ctl/Restored both calls together; Dxe/Init `wcn36xx_dxe_init_descs` and
--   `wcn36xx_dxe_init_tx_bd`; Dxe/Pools the memory of the BDs, and Dxe/Pools/Stale what is left of
--   it after a stop; Dxe/Ctl/Apart blocks that are not shared, Dxe/Ctl/All those of all four
--   channels; Dxe/Setup `wcn36xx_dxe_init`, `wcn36xx_dxe_request_irqs` and `wcn36xx_dxe_deinit`
--   with the registers, Dxe/Setup/Placed where the descriptors are, Dxe/Setup/Buffers the first
--   buffers of a receive channel, Dxe/Setup/Fresh the rings, Dxe/Setup/Writes the order of the
--   register writes, Dxe/Setup/Ready the engine that is started; Dxe/Cyclic walks around a ring of
--   any size.
-- - Pmc (pmc.c, pmc.h): Pmc/State the power state of an interface and the functions that change it.
-- - Mac (main.c): Mac/Rates the rates that the firmware is told for a station; Mac/Allowed which of
--   them are filled in; Mac/Keys `wcn36xx_set_key` and Mac/Keys/Faults when it follows a null
--   pointer; Mac/Ops the callbacks for scanning, the configuration, filters, interfaces, stations
--   and sleep; Mac/Ampdu `wcn36xx_ampdu_action`; Mac/Bss `wcn36xx_bss_info_changed`, one function
--   per flag of `changed`, and Mac/Bss/Order the commands that it sends; Mac/Start `wcn36xx_start`
--   with one function per label and per step between two tests of `ret`, and `wcn36xx_stop`,
--   Mac/Start/Leaks a start without memory for the command buffer, Mac/Start/Running the engine of
--   a start, Mac/Start/Stopped a start that succeeds and the stop after it; Mac/Probe
--   `wcn36xx_probe` and `wcn36xx_remove`; Mac/Bands the channels and rates.
-- - Msm (wcn36xx_msm/main.c): Msm/Channel sending and the notifications, Msm/Work the receiving
--   work, Msm/Open opening and closing together with `wcn36xx_smd_open` and `wcn36xx_smd_close` of
--   smd.c, Msm/Device the platform device and the hardware address.
-- - Debug (debug.c, debug.h): Debug/Bmps and Debug/Dump the two files, Debug/Files making and
--   removing them.
-- - Txrx (txrx.c): Txrx/Ampdu is `wcn36xx_tx_start_ampdu`, Txrx/Sessions what a run of frames asks
--   for; Txrx/Bd is `struct wcn36xx_tx_bd` as words, Txrx/Fill what `wcn36xx_set_tx_data` and
--   `wcn36xx_set_tx_mgmt` put into it, Txrx/Send `wcn36xx_start_tx`, `wcn36xx_tx` of main.c and
--   `wcn36xx_dxe_tx_ack_ind` of dxe.c, Txrx/Send/Pending a frame that is refused, Txrx/Receive
--   `wcn36xx_rx_skb` over the bytes of a buffer, and Txrx/Receive/Told what its BD tells.
-- - Smd/Tests, Smd/Bss/Tests, Pmc/Tests, Dxe/Tests, Dxe/Rx/Tests, Dxe/Ctl/Tests, Dxe/Pools/Tests,
--   Dxe/Setup/Tests, Mac/Tests, Mac/Keys/Tests, Mac/Bss/Tests, Mac/Start/Tests, Txrx/Tests,
--   Txrx/Send/Tests, Msm/Tests and Debug/Tests run the definitions at concrete inputs;
--   Smd/Bss/Sample has an interface, a station and a device for them.
--
-- Conventions. Numbers are natural; a field keeps its width by the bytes that are laid out, and a
-- `u16` or `u32` that the code computes with is reduced by `%`. A function that changes the state
-- takes it and gives it back with the result. `Ret` is the `int` result: 0, a negated errno, or
-- another nonzero value. Calls outside src are data: what `ctrl_ops->tx`, the firmware, `kmalloc`,
-- `kzalloc`, `alloc_skb`, `dma_alloc_coherent`, `request_firmware` and `dma_map_single` give is
-- part of the state or of the frame, and the calls made are logged in it; so is what the shared
-- memory channel, `request_irq`, `readl`, the platform and the debug file system give. `kstrtou32`
-- and `sscanf` are functions that the definitions take. Locks are not modelled: each operation is
-- one step, as the mutex of the channel and the locks of the rings make it. A queued work is a
-- Boolean: queueing it again while it is queued does nothing, and its run takes it off the queue
-- first. A ring is the list of its control blocks in the order of `ctl_blk_order`, and a pointer
-- into it is a place in the list; Dxe/Ctl shows that the blocks on the heap are linked so. A heap
-- maps addresses to blocks, and a read or a free of an address without one is a fault, `none`; so
-- is following the pointer of a station that is not given or of an interface that is not found.
-- A write outside the message of a beacon is such a fault too, and ends the callback that sent it.
-- A response that is longer than `hal_buf` is different: the list that stands for the buffer grows
-- by the bytes behind the end, so that its length says how far the copying went.
--
-- Bounds and fuel. `load_nv_loop` counts rounds; 22 are enough for every file whose offsets fit 16
-- bits, and no number is enough for a larger file that the firmware takes. `reap_loop` counts
-- blocks, and a call has as many as the ring; `rx_loop` has one test more, since each round makes a
-- block valid again. A start takes the number of rounds for its
-- download from outside. The rings may have any even size; the driver's have 128 and 10 blocks.
--
-- Not modelled: in main.c `wcn36xx_init_ieee80211` and the HT capabilities of the bands, which put
-- constants of mac80211 into its structs, and the names of capabilities, which are only logged;
-- `wcn36xx_msm_smsm_change_state`, which is one call of the kernel.
pub mod Common
pub mod Hal
pub mod Smd
pub mod Dxe
pub mod Pmc
pub mod Mac
pub mod Txrx
pub mod Msm
pub mod Debug
