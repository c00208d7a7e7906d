-- ===== src/Lib.antt =====
-- The data acquisition of the Baby MIND detector (src/, C++): raw data of the front-end boards are read
-- out, scanned for spills, collected board by board into fragments, and recorded as events, under the
-- control of a finite-state machine.
--
-- How the parts interact: a readout worker (BMDReadout) fills a container with the data of one device;
-- the data scanner (BMDDataScanner) marks the spill headers and trailers in it; the event builder
-- (BMDEventBuilder) gives it to the fragment builder (DataFragmentBuilder) of its board, which keeps the
-- data in a memory bank (BMDMemBank) until the spill is complete and then moves them to the event's bank;
-- an event with as many fragments as boards is written by the recorder. The actions of the states
-- (BMDIdle, BMDStandby, BMDActive, BMDFailure, BMDFatalError) open and configure the devices, hire and
-- dismiss the workers, and start and stop the readout. A window (MainWindow) publishes the user's commands,
-- and the remote control program gives them to the state machine.
--
-- The files, and the code that they model:
--   Common, Common/Tests, Common/Lists, Common/Bytes: numbers, lists, and little-endian words in bytes.
--   Action: a method is a function from a state to a result and the state after it; a result is a value,
--     a UFEError with its severity, or `fault`, undefined behaviour (a null or dangling pointer, an index
--     or an access out of range).
--   Ufe, Ufe/Relocate: libufecpp's UFEDataContainer as an interface (`Ufe`) with its laws (`UfeLaws`).
--   MdWord: the fields of a 32-bit data word (MDdataWordBM), as an interface without laws.
--   DataLib/Headers: src/BMDDataHeaders.h; a member is a field at an offset (x86-64).
--   DataLib/MemBank: BMDMemBank (src/BMDDataLib.h, src/BMDDataLib-inl.h) and header_clear
--     (src/BMDDataLib.cpp), with its invariant, append, clear, and the copies and moves below it.
--   DataLib/Fragment: DataFragmentBuilder (src/BMDDataLib.cpp): process, moveToEventBank. Below it Spec is
--     the specification `absorb` on lists of bytes, Transfer the move to the event, and Refines the
--     refinement, Refines/Answer for any board and for a jammed builder too; Stream is about a spill in many
--     containers, Sizes about the header's size in
--     between, Jammed about a spill whose ends disagree.
--   Workers/Readout, Workers/Scanner, Workers/EventBuilder: src/BMDWorkers.h and src/BMDWorkers.cpp.
--     Scanner/Positions describes the marks of a container without loops. EventBuilder/Invariant holds the
--     invariant between two calls, Steps one call of process, Runs sequences of them, Fresh and Start init,
--     Counts the numbers of events, Memory, Capacity and Room the memory of the banks, Maps and Order the
--     map of boards, Unrecorded and Failures events that could not be written, Unknown
--     data of boards that are not in the map. Scanner/Loops has the scanner's loops as they are written.
--     Workers/Pipeline joins the scanner and the event builder: Book is the specification, Feed the calls,
--     Tracks and Records that they follow it, Whole the same from init on, AnyOrder the order of boards;
--     Ring puts the readout before them, on containers that go round; Circulation is about its rounds.
--   Fsm: the interface `Daq` of libufec, libufecpp and mic11api, and the state of the whole program;
--     Fsm/Idle, Standby, Active and Faults: src/BMDStateMachine.cpp; Fsm/Descriptions is the search of
--     BMDIdle::setDeviceDescription; Fsm/Handlers has the actions as src/BMDStateMachine.h declares them;
--     Fsm/Requests, Starting, Closing, Hiring, Joining and
--     Matching hold theorems.
--   Control/Gui: src/BMDGui.h, src/BMDGui.cpp; Control/Remote: remoteInput of
--     tools/bm_daq_remote_ctrl.cpp; Control/Commands joins the two. Control/Launch: main of the same
--     file and of tools/bm_daq_local_ctrl.cpp.
--   Control/BackTrace: crit_err_hdlr (tools/GetBackTrace.h); Symbols is about one frame with a symbol,
--     Frames about all of them.
--   Tests: concrete libraries, a run over three containers, and the theorems at concrete inputs.
--
-- What the theorems rest on: `UfeLaws` says of a container that its size is at most its memory and below
-- 2^64, that an append which fits adds the bytes and moves the spill positions, that `resize` within the
-- memory and `clear` keep the buffer, and what copies and moves keep. Tests/Toy is a container that meets
-- them all. Machine integers wrap (`% 2 ^ 64`, `% 2 ^ 32`, `% 2 ^ 16`). The two loops of the
-- scanner count down the words that are left; with the tests as they are written they take fuel, of which one
-- more than the words is enough, since every round takes a word. All other loops go over lists.
--
-- Of the recorder the theorems on runs, but for Failures, assume that it writes without an error, and of
-- new memory that it counts no fragment, since the constructors leave it as it is. Of
-- UFEDevice they assume, where the readout takes part (`Sender`), that getData puts the device's data and
-- board into a blank container that has room for them, without marks. The sockets of Control are parameters:
-- that the subscriber gets what was published, in order, is a hypothesis. mic11api decides which action of a
-- state runs when. Of QWidget::close the model of the window has that it calls closeEvent before it returns,
-- and that a call within closeEvent returns at once.
--
-- Not modelled: the widgets of Qt and their layout, the main function of tools/bm_daq_gui.cpp and
-- `localInput` (they only call libraries), the threads of mic11api and its FIFOs between the
-- workers (Ring has the order in which containers come back), messages
-- that only go to the terminal, the clock (times are arguments or parameters), `boardsToString`, a
-- configuration without the members that the code reads (jsoncpp throws there), and the third-party
-- libraries themselves.
pub mod Common
pub mod Action
pub mod Ufe
pub mod MdWord
pub mod DataLib
pub mod Workers
pub mod Fsm
pub mod Control
mod Tests
