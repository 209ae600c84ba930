-- ===== src/Lib.antt =====
-- Livox SDK2, the library that talks to Livox lidars over UDP: the parts of sdk_core that take bytes
-- from the network and decide what reaches the application.
--
-- The parts, and how they interact. A datagram is framed by the command protocol (sdk_core/comm). The
-- general command handler (sdk_core/command_handler) keeps the commands that wait for an answer and
-- gives each answer to its callback; it passes what a device pushes by itself to the state parser,
-- which prints it as JSON. Points and measurements go to the data handler (sdk_core/data_handler).
--
--   Protocol   sdk_core/comm/protocol.h, sdk_protocol.h, sdk_protocol.cpp, comm_port.cpp.
--              `pack` is SdkProtocol::Pack, `parse_packet` ParsePacket, `check_preamble`
--              CheckPreamble, `parse_comm_stream` CommPort::ParseCommStream. Protocol/Frame describes
--              the frame without the code; Pack, Parse, Stream and Accepted compare the code with it.
--   StateInfo  sdk_core/command_handler/parse_lidar_state_info.cpp and the keys and structures of
--              include/livox_lidar_def.h. `parse_state_info` is ParseStateInfo with its loop
--              (`parse_tlvs`) and switch (`parse_case`, `parse_value`, `parse_status`),
--              `livox_lidar_state_info_to_json` is LivoxLidarStateInfoToJson, as the calls that it
--              makes on rapidjson's writer, and `parse` is Parse. StateInfo/Message describes the
--              message without offsets, StateInfo/Query the keys that
--              GetQueryLidarInternalInfoKeys asks for.
--   PointData  sdk_core/data_handler/data_handler.h, data_handler.cpp. `is_complete_data_packet` is
--              IsCompleteDataPacket, `handle_data` DataHandler::Handle, as the list of the calls of
--              callbacks that it makes: `copy_callbacks` under the mutex, and `deliver` without it.
--              The setters, observers and Destory act on `DataHandler`. PointData/Threads has the
--              packets in flight, the removals and Destory as a step relation.
--   Commands   the pending commands of sdk_core/command_handler/general_command_handler.cpp
--              (`add_command`, `remove_command`, `take_command_ack`, `commands_handle`,
--              `send_command`), sdk_core/comm/generate_seq.cpp (`get_seq`) and the sender of
--              hap_command_handler.cpp (`device_send_command`).
--   Callbacks  the callbacks of GeneralCommandHandler and the operations that may call them
--              (general_command_handler.h, general_command_handler.cpp): one function for each hold of
--              the mutex, and in Callbacks/Lifecycle the threads as a step relation.
--   Dispatch   `handler` is GeneralCommandHandler::Handler for the port that all devices share,
--              from the bytes of a datagram to what it calls, with the admission of detection data
--              (detection_data_admission.h).
--   Requests   sdk_core/command_handler/build_request.cpp and command_impl.cpp, and the functions of
--              sdk_core/livox_lidar_sdk.cpp that set something. `ip_to_u8` is BuildRequest::IpToU8,
--              `build_..._request` are the functions of BuildRequest, Requests/Control and Queries
--              hold those of CommandImpl under their own names, and `set` the public interface.
--              Requests/Message describes a request as a list of keys and values; Update, Wire,
--              Listing, Outgoing and ReadBack compare the code with it.
--   Devices    the handlers of the device types (hap_command_handler.cpp, mid360_command_handler.cpp
--              and the others; `Profile` is what they differ in) and what
--              general_command_handler.cpp keeps of a device. `handle_accepted_detection_data`,
--              `query_fw_type_callback`, `update_lidar_callback` and `livox_lidar_info_change` are
--              the functions of those names; what they call is a list of effects. Devices/Managed
--              runs them together with the device manager, which calls back, and Devices/Steps has
--              them as the steps of a relation, in any order.
--   Manager    the devices that sdk_core/device_manager.cpp keeps: `handle_detection`,
--              `get_internal_info_callback`, `add_view_lidar`, `update_view_lidar_cfg_callback` and
--              `get_device_type` are the methods of DeviceManager, each with the calls it makes;
--              Manager/Scan is the loop over the keys of an answer.
--   Config     sdk_core/params_check.cpp: `check` is ParamsCheck::Check, for lists that are not null,
--              and `check_lidar_ip`, `check_port`, `check_lidar_multicast_ip` are its methods.
--   Base       lists, buffers, little-endian words, sorted maps and Boolean tests.
--
-- The model. A buffer is the list of its bytes, and an access outside of it is a value, `none` or
-- `fault`, which the code never means to reach. Machine integers are natural numbers, with the masks
-- of the stores written out. `std::map` is the list of its entries in the order of the keys. Loops
-- are structural recursions: over the bytes, the entries, or the number of keys that the message
-- tells of; the loop over the dots of an address has as fuel one more than the length of the text, and
-- the loop over the keys of an answer in view mode as much as the answer has keys. What is done
-- under one hold of a mutex is one step. What other threads do between two steps of one send is the
-- parameter `meanwhile`, and DataHandler::Handle calls the callbacks after it released its mutex. The
-- functions of Devices and Manager are each one step too, though not all of them hold a mutex
-- (LivoxLidarInfoChange holds none): their steps are those of one thread at a time.
-- The writer of rapidjson is a list of calls; a number that is no finite `double` is one that
-- it refuses (3rdparty/rapidjson/writer.h).
--
-- Parameters. The checksums of FastCRC (`FastCrc`) are any functions with 16 and 32 bits. Sending a
-- datagram and `inet_ntoa` are fields of `Transport`.
--
-- Not modelled: the sockets, threads and loops of sdk_core/base, the sockets that
-- the device manager keeps, the configuration file, the log files, the synchronisation of time by
-- GPRMC sentences, the upgrade of the firmware and the debug point cloud; the third-party
-- code of 3rdparty; the samples, tests and tools.
pub mod Base
pub mod Protocol
pub mod StateInfo
pub mod PointData
pub mod Commands
pub mod Callbacks
pub mod Dispatch
pub mod Requests
pub mod Devices
pub mod Manager
pub mod Config
