-- ===== src/Lib.antt =====
-- The OCP diagnostic core. Its results library (ocpdiag/core/results): the calls that a diagnostic
-- makes on a test run, its steps and measurement series, the artifacts that they write, and the
-- reader that builds a model from those artifacts. Its hardware interface
-- (ocpdiag/core/hwinterface): the client that takes a diagnostic's questions to the backends of a
-- machine, and the backend that answers them from the files of a host.
--
-- The parts and their files. A C++ method keeps its name in snake case; `End` is `finish`, a
-- constructor `create`, a destructor `destroy`. A method is a function from the state to a result
-- and the next state (Outcome/Action). A failed CHECK, a LOG(FATAL) and undefined behaviour are
-- three crashes, values that end the program (Outcome).
--   Platform       what the code uses of C++ floats, absl, protobuf and the clock, as parameters
--   Model          data_model: the input structs (Input), the output structs (Output), the messages
--                  of results.proto (Proto), the casts between enumerations (Enums),
--                  struct_to_proto.cc (ToProto), proto_to_struct.cc (FromProto), and the
--                  operators of equality (Equality)
--   Validate       data_model/struct_validators.cc
--   InputHelpers   data_model/input_model_helpers.cc
--   Compat         compat/proto_utils.cc of ocpdiag/core
--   IntIncrementer int_incrementer.h; the count is an int, and its overflow is undefined
--   Calculator     test_result_calculator.h and .cc
--   DutInfo        data_model/dut_info.h and .cc
--   Writer         artifact_writer.h and .cc; Writer/Moves says what can happen to a writer
--   TestRun        test_run.h and .cc, log_sink.h; TestRun/Abort says what the registered log sink is
--                  sent as the process dies
--   TestStep       test_step.h and .cc, on a step and the run that it refers to
--   Series         measurement_series.h and .cc, on a series, its step and the run
--   Session        a program: calls in any order on one run and the steps and series it creates
--   Receiver       output_receiver.h and .cc, and the loop of output_iterator.h
--   Hardware       hwinterface; a method is a function from the state of its object and of the host
--                  to a status with a value (Hardware/Status) and the states after it
--     Config       config.proto; client/node_client.cc: the overrides by flags (Override), LoadConfigs
--     Client       client/node_client.h and .cc, service_interface.h: the making of a client, the
--                  choice of a backend (Client), and every call (Client/Calls)
--     Flags        service_flags.cc: the parsing and the printing of the flags
--     Host         backends/lib/host_adapter.h as a parameter; ParseRangeList of backends/lib/utils.cc
--     Polling      the loop that waits for an answer until a deadline, as Process, Command and
--                  Remote/Ssh run it
--     Process      backends/lib/utils.cc: the texts of a host and its port, the id and the restart of
--                  a process
--     Command      backends/lib/host_adapter.cc: running a command on the local host
--     Remote       lib/off_dut_machine_interface of ocpdiag/core: remote_factory.cc, ssh/remote.cc
--                  (Remote/Ssh); the two adapters of backends/lib/host_adapter.cc (Remote/Adapter)
--     Identifier   backends/lib/hw_info.cc; lib/identifier_utils.h and .cc (Identifier/Matcher)
--     Cpu          backends/host/cpu.h and cpu.cc; GetCpuInfo of host_backend.cc (Cpu/Info)
--     Errors       backends/host/error.cc; GetErrors of host_backend.cc
--     Memory       backends/host/memory.cc and memory_convert.cc
--     Storage      backends/host/storage_info.cc and node_info.cc
--     Backend      GetHwInfo and Reboot of host_backend.cc
--   Tests          the theorems at concrete inputs
--
-- A call that dies ends in a crash and the state as it stands then. What comes after is absl's:
-- TestRun/Abort sends the entries that it passes for a failed CHECK or a LOG(FATAL), a parameter, to
-- the log sink where that is registered; Session and TestStep/Ended put it behind a program's calls.
--
-- The run owns the calculator, the writer and the counters of ids; a step and a series reach them
-- through the run, so their methods change the run's state too. Flags that the process holds (a run
-- exists, a DutInfo exists) are fields of the state that reads them.
--
-- A method is one step, and the calls of several threads are an order of such steps. That is exact
-- where a method holds its mutex throughout, as those of the calculator and of the run do; a method
-- of a step or a series takes mutexes one after the other, and another thread's call in between is
-- not modelled. The loops are recursion on lists: the values of a validator, the records of a file,
-- the waits of the flush thread. The other loops take fuel, and a result is none where it runs out.
-- The search of UpdateIdToLocal takes one more than the length of the text, which is enough since
-- each round cuts the prefix; the search for ssh takes one more than the length of the path. A wait
-- until a deadline takes any fuel: more than the milliseconds to wait is enough, since each round
-- sleeps. So does the writing of a command's input, where each write takes a character.
--
-- In Hardware the backends, their builders, the host, its clock and system calls, Abseil's functions
-- on texts, RE2, the JSON library and the reader of SMBIOS tables are parameters. The text of an
-- error and the log are not kept. A C++ map is an association list, whose order stands for the order
-- that the map has. Of a fork, the parent's branch is modelled: the child's is the program started.
-- Times are natural numbers of milliseconds.
--
-- Not modelled: the errors of the file system at which std::filesystem::exists throws, the
-- EXPAND_JSONL layout of the text on the stream, the printed messages themselves, the equality
-- operators of structs with floating-point values; of hwinterface, the fake client; and the rest of
-- ocpdiag/core: the conversions of statuses and of JSON, test matchers, examples, which only convert
-- between the types of libraries or support tests.
pub mod Base
pub mod Outcome
pub mod Platform
pub mod Model
pub mod Validate
pub mod InputHelpers
pub mod Compat
pub mod IntIncrementer
pub mod Calculator
pub mod DutInfo
pub mod Writer
pub mod TestRun
pub mod TestStep
pub mod Series
pub mod Session
pub mod Receiver
pub mod Hardware
pub mod Tests
